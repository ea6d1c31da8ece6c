-- ===== src/Chd.antt =====
-- mame-chd-src/src/lib/util/chd.cpp: the CHD container.
pub mod V5Map
pub mod Hunks
pub mod Header
pub mod Metadata
