-- ===== src/Lib.antt =====
-- libchdman-rs: the C++ core of the CHD library, modelled and verified in part.
--
-- The program reads and writes CHD files, the compressed disk images of MAME. A CHD file holds hunks
-- of m_hunkbytes bytes, a map that tells where and how each hunk is stored, and metadata. The repository
-- holds MAME's library (mame-chd-src/src/lib/util) and a layer of its own (sys), which stands in for
-- MAME's operating-system layer and gives the library to Rust. A file that is created compressed is
-- filled by chd_file_compressor, which asks its subclass for the data (for a CD that is CdCompressor of
-- sys/cd_shim.cpp), compresses the hunks on the threads of a work queue (sys/minimal_osd.cpp), writes
-- them, and at the end writes the map in a compressed form (chd_file::compress_v5_map).
--
-- Files:
-- - Prelude: the names that all share; Boolean tests, lists over native numbers, blocks of bytes and
--   families of counters.
-- - Errors: chd_file::error and results (mame-chd-src/src/lib/util/chd.h).
-- - Bytes: big-endian integers (mame-chd-src/src/lib/util/multibyte.h).
-- - Sys/WorkQueue: sys/minimal_osd.cpp, the work queue. The state is Queue; one step (Step) is one
--   critical section of worker_thread, osd_work_item_queue_multiple, osd_work_item_wait,
--   osd_work_queue_wait or osd_work_item_release, one call of a callback, one notification of the
--   threads that wait on done_cv, or one return to the wait of a thread that was notified; workers
--   may look at the queue at any time, so the notifications of cv are no steps. Reach holds the states
--   that any number of steps lead to, for any number of workers and of threads that use the queue.
--   Invariant states the invariant, Preserve and Reachable keep it, Safety draws the theorems.
-- - Sys/CdImage: sys/cd_shim.cpp, CdCompressor::read_data, chd_shim_toc_pad_tracks and
--   chd_shim_toc_logical_bytes. Source files are a function from a name to a reader (Files). Frames and
--   Disc have the loops frame by frame, FrameBytes says which byte of which file each byte of the disc
--   is, DiscBytes has the refinement. Frames of more than 2448 bytes are not modelled.
-- - Chd/V5Map: mame-chd-src/src/lib/util/chd.cpp, compress_v5_map and decompress_v5_map. The map is a
--   list of MapEntry; its symbols and fields are met through Reader. Types has the run-length code,
--   Fields one entry, RoundTrip the list of entries, WholeMap the two together. Huffman has encode_one
--   and decode_one of mame-chd-src/src/lib/util/huffman.h, Streams puts them and the bit streams of
--   Bitstream in the place of Reader.
-- - Chd/Header: mame-chd-src/src/lib/util/chd.cpp, parse_v3_header, parse_v4_header, parse_v5_header and
--   the header that create_common writes; Checks has what create_common accepts.
-- - Chd/Hunks: mame-chd-src/src/lib/util/chd.cpp, the hunks: file_read, file_write, file_append,
--   hunk_info, write_hunk and the writes of a compressed file. Access has read_hunk, read_bytes and
--   write_bytes. Image and ReadBytes show what read_bytes delivers for
--   any read_hunk that serves an image, Plain applies this to read_hunk on an uncompressed file, and
--   WriteOnce has the three writes of a compressed file as values (Write), WriteLater lists of them.
--   Disk has what is relied on of the file behind it.
-- - Chd/Metadata: mame-chd-src/src/lib/util/chd.cpp, the metadata entries: metadata_find, read_metadata,
--   delete_metadata, metadata_set_previous_next. Writing has write_metadata, clone_all_metadata and the
--   hash over the entries. Chain says when bytes hold a list of entries (Linked); Search, Relink, Edits,
--   Additions, Overwrite, Written and Readback hold the proofs.
-- - Cdrom: mame-chd-src/src/lib/util/cdrom.cpp and cdrom.h, class cdrom_file: the offsets of the tracks
--   that the constructor for a CHD computes, and the conversion of frame addresses. Layout says which
--   frame of the CHD an address means. Read has read_partial_sector, read_data and read_subcode on a CHD
--   or on source files, which are functions (RandomRead), Frames reads each logical frame. Ecc has the
--   error correction codes and their tables, with ecc_compute_bytes once on variables of the caller and
--   once on bytes of the sector (Ecc/InPlace shows that both agree), Ecc/Generate and Ecc/Restore the round trips. Types
--   has the names of the types of tracks. Toc has what write_metadata gives string_format for a track, and what
--   parse_metadata makes of what sscanf stores; Toc/Text joins both.
-- - Codec: mame-chd-src/src/lib/util/chdcodec.cpp. Cd is the front end for CDs, chd_cd_compressor and
--   chd_cd_decompressor, over two codecs that are parameters (Coder); Cd/Sector is one sector without
--   what can be computed again, Cd/RoundTrip the loops over the frames, Cd/Hunk a whole hunk. Group is
--   the list of codecs and chd_compressor_group, which the hunks of a new CHD go through; Group/Best
--   is the choice of a compressor, Group/Built the constructor.
-- - Bitstream: mame-chd-src/src/lib/util/bitstream.h, the streams of bits of the version 5 map and of the
--   Huffman coder. Window is the independent view, a buffer as a row of bits; Filling and Reading are
--   bitstream_in, where At says which bits the accumulator holds; Writing, Offload, Rounds and Flushing
--   are bitstream_out, where Holds says which number is written; RoundTrip joins both.
--
-- Numbers are natural numbers; each wrap-around of a machine integer is written out. Loops run on fuel
-- that is the number of rounds they can take: bits_loop takes 64 for a 64-bit number, flush_loop the
-- count of repeats, the loops of read_data the frames that are left, and those of the bit streams the
-- bytes of an accumulator of 32 bits. read_hunk takes fuel for the depth of references between hunks,
-- and metadata_find fuel for the entries it reads, neither of which the source bounds.
--
-- Not modelled: the codecs zlib, zstd, lzma, FLAC and A/V Huffman, the checksums and the files of the
-- operating system, which are parameters; the tree of the Huffman coder and its export; the rest of create_common and
-- open_common; the ring of work items of chd_file_compressor; the table of contents of cdrom_file from
-- all entries of metadata and from CUE, GDI, NRG, TOC and ISO files; the Rust side.
pub mod Prelude
pub mod Errors
pub mod Bytes
pub mod Sys
pub mod Chd
pub mod Cdrom
pub mod Codec
pub mod Bitstream
