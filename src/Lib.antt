-- ===== src/Lib.antt =====
-- A model of the shared-memory allocator of this repository (include/ and src/): a region that
-- several processes map, in which objects are allocated, counted by reference, sent through message
-- queues, and recovered by a monitor when a process has died.
--
-- How the parts map to the files. A pointer into the region is its offset from `start`, NULL is 0.
--
--   Memory         the region as 64-bit words, and the commands over it
--   Layout         include/cxlmalloc-types.h, include/cxlmalloc-internal.h: offsets, sizes, packing;
--                  cxl_ptr_segment, cxl_ptr_page, era and cxl_page_queue of src/
--   Handle         the private fields of cxl_shm, the counters of pages and segments
--   PageQueue      src/page_queue.cpp
--   Segment        src/segment.cpp
--   Page           src/page.cpp
--   Alloc          src/alloc.cpp, and block_to_* and link_block_to_tbr of src/cxl_shm.cpp
--   RefCount       link_reference, unlink_reference, test_free of src/cxl_shm.cpp
--   Thread         thread_init, cxl_malloc, get_ref of src/cxl_shm.cpp
--   Ref            src/cxl_ref.cpp
--   Transfer       src/transfer.cpp
--   HashIndex      src/hash_index.cpp
--   Collect        normal_garbage_collection of src/recovery.cpp
--   Redo           redo_ref_cnt of src/recovery.cpp
--   Monitor        the other functions of class monitor in src/recovery.cpp
--   Protocol       link_reference and unlink_reference once more, as steps of threads that run at the
--                  same time, with what redo_ref_cnt concludes about a thread that has died
--
-- The modules below these hold the proofs, by what they prove, and in Tests the runs that the proofs
-- are applied to. Base holds what all share.
--
-- Straight-line code is a function from region to region. What can fail is a command: it returns, it
-- faults (a NULL pointer is used, or a division is by 0), or it has run out of fuel. Loops over a list, over blocks
-- and through object graphs run on fuel, which is an argument; a compare-exchange loop that can
-- never succeed is `out_of_fuel` too. Outside `Protocol` one thread runs while no other writes, so
-- that a compare-exchange does not fail, and it does not fail spuriously. Loops with a bound of
-- their own (bins, pages of a segment, segments, slots) recur on that bound.
--
-- The definitions take the layout that the x86-64 ABI gives to the structs. Words and counters wrap
-- at their widths, and a reference count that leaves its 16 bits carries into the client id of its
-- word, in `Protocol` too. What the theorems of `Protocol` say holds as long as no count does so and
-- no era wraps around, which their runs state. Offsets, which are bounded by the size of the mapping, do not wrap.
--
-- Not modelled: shmat, mmap, the network card's address (an argument of thread_init), cache flushes
-- and fences, fault injection, printing and timing, and the tests and benchmarks under test/.
pub mod Base
pub mod Memory
pub mod Layout
pub mod PageQueue
pub mod Handle
pub mod Segment
pub mod Page
pub mod Alloc
pub mod RefCount
pub mod Thread
pub mod Ref
pub mod Transfer
pub mod HashIndex
pub mod Collect
pub mod Redo
pub mod Monitor
pub mod Protocol
