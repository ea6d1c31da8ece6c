-- ===== src/Sys.antt =====
-- sys/: the C++ bridge of the crate.
pub mod WorkQueue
pub mod CdImage
