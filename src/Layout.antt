-- ===== src/Layout.antt =====
-- The layout of the region: include/cxlmalloc-types.h, the address arithmetic of
-- include/cxlmalloc-internal.h, and the functions of src/cxl_shm.cpp, src/page.cpp and
-- src/segment.cpp that turn one offset into another. Field offsets and sizes are those that the
-- x86-64 ABI gives to the structs.
pub mod Pointers
pub mod Bins
pub mod RefInfo
pub mod Regions
mod Tests
use sosp_paper19_ae.Base.{ℕ, ◌+◌, ◌-◌, ◌*◌, ◌/◌, ◌%◌, ◌^◌, ◌<◌, Bool, ◌==◌, if◌then◌else◌}
use sosp_paper19_ae.Memory.{u64}

abbrev pub page_size : ℕ
page_size = 2 ^ 16

abbrev pub segment_size : ℕ
segment_size = 2 ^ 26

abbrev pub pages_per_segment : ℕ
pages_per_segment = 1024

abbrev pub era_array_start : ℕ
era_array_start = 2 ^ 22

abbrev pub thread_local_vec_start : ℕ
thread_local_vec_start = 2 ^ 23

abbrev pub hash_table_start : ℕ
hash_table_start = 2 ^ 26

abbrev pub hash_table_size : ℕ
hash_table_size = 2 ^ 20

abbrev pub segments_area_start : ℕ
segments_area_start = 2 ^ 27

abbrev pub cxl_bin_size : ℕ
cxl_bin_size = 66

abbrev pub message_buffer_size : ℕ
message_buffer_size = 16

abbrev pub max_thread : ℕ
max_thread = 1024

abbrev pub max_segment_num : ℕ
max_segment_num = 4096

abbrev pub redo_cacheline_cnt : ℕ
redo_cacheline_cnt = 8

-- `CXLObj`: `next`, `ref_info`, `embedded_ref_cnt`.
abbrev pub cxlobj_size : ℕ
cxlobj_size = 24

abbrev pub ref_info_at : ℕ → ℕ
ref_info_at o = o + 8

abbrev pub embedded_ref_cnt_at : ℕ → ℕ
embedded_ref_cnt_at o = o + 16

-- `RootRef`: `pptr`, then `in_use` (byte 0) and `ref_cnt` (bits 16 to 31) of the second word.
abbrev pub root_ref_size : ℕ
root_ref_size = 16

abbrev pub root_flags_at : ℕ → ℕ
root_flags_at r = r + 8

-- `cxl_page_t`: `free`, `local_free`, the word of `block_size` (low) and `used` (high), `next`,
-- `prev`, and the word of `is_msg_queue_page`.
abbrev pub cxl_page_size : ℕ
cxl_page_size = 48

abbrev pub local_free_at : ℕ → ℕ
local_free_at p = p + 8

abbrev pub counts_at : ℕ → ℕ
counts_at p = p + 16

abbrev pub next_at : ℕ → ℕ
next_at p = p + 24

abbrev pub prev_at : ℕ → ℕ
prev_at p = p + 32

abbrev pub is_msg_at : ℕ → ℕ
is_msg_at p = p + 40

-- `cxl_segment_t`: the word of `thread_id` (bits 0 to 15) and `used` (high), then `meta_page`.
abbrev pub cxl_segment_struct_size : ℕ
cxl_segment_struct_size = 8 + cxl_page_size * pages_per_segment

abbrev pub meta_page_at : ℕ → ℕ → ℕ
meta_page_at segment i = segment + 8 + cxl_page_size * i

-- `cxl_segment_allocation_state_t`: the word of `thread_id` (low) and `ver` (high), then, aligned
-- to 16, `info.state` and `info.thread_free`.
abbrev pub sas_size : ℕ
sas_size = 32

abbrev pub sas_at : ℕ → ℕ
sas_at i = i * sas_size

abbrev pub sas_state_at : ℕ → ℕ
sas_state_at a = a + 16

abbrev pub sas_thread_free_at : ℕ → ℕ
sas_thread_free_at a = a + 24

-- `cxl_page_queue_t`: `first`, `last`, `block_size`.
abbrev pub cxl_page_queue_size : ℕ
cxl_page_queue_size = 24

abbrev pub last_at : ℕ → ℕ
last_at q = q + 8

abbrev pub queue_block_size_at : ℕ → ℕ
queue_block_size_at q = q + 16

-- `cxl_thread_local_state_t`: `redo`, `packed_machine_process_id`, `pages`, `free_page`,
-- `sender_queue`, `receiver_queue`; padded to a multiple of 64.
abbrev pub tls_size : ℕ
tls_size = 2176

abbrev pub redo_at : ℕ → ℕ → ℕ
redo_at tls i = tls + 64 * i

abbrev pub packed_id_at : ℕ → ℕ
packed_id_at tls = tls + 512

abbrev pub pages_at : ℕ → ℕ → ℕ
pages_at tls i = tls + 520 + cxl_page_queue_size * i

abbrev pub free_page_at : ℕ → ℕ
free_page_at tls = tls + 2104

abbrev pub sender_queue_at : ℕ → ℕ
sender_queue_at tls = tls + 2128

abbrev pub receiver_queue_at : ℕ → ℕ
receiver_queue_at tls = tls + 2136

abbrev pub tls_at : ℕ → ℕ
tls_at i = thread_local_vec_start + i * tls_size

-- `cxl_message_queue_t`: `start`, `end`, the word of `sender_id` (bits 0 to 15) and `receiver_id`
-- (bits 16 to 31), `sender_next`, `receiver_next`, `buffer`; padded to a multiple of 64.
abbrev pub message_queue_size : ℕ
message_queue_size = 192

abbrev pub end_at : ℕ → ℕ
end_at q = q + 8

abbrev pub ids_at : ℕ → ℕ
ids_at q = q + 16

abbrev pub sender_next_at : ℕ → ℕ
sender_next_at q = q + 24

abbrev pub receiver_next_at : ℕ → ℕ
receiver_next_at q = q + 32

abbrev pub buffer_at : ℕ → ℕ → ℕ
buffer_at q i = q + 40 + 8 * i

-- `enum segment_state`
abbrev pub normal : ℕ
normal = 0

abbrev pub abandon : ℕ
abandon = 1

abbrev pub potential_leaking : ℕ
potential_leaking = 2

-- `enum redo_func_id`
abbrev pub link_ref : ℕ
link_ref = 1

abbrev pub unlink_ref : ℕ
unlink_ref = 2

-- `offset & ~SEGMENT_MASK`
unfoldable pub cxl_ptr_segment : ℕ → ℕ
cxl_ptr_segment p = p - p % segment_size

-- The index into `meta_page` is `(p - segment) >> PAGE_SHIFT`.
unfoldable pub cxl_segment_page_of : ℕ → ℕ → ℕ
cxl_segment_page_of segment p = meta_page_at segment ((p - segment) / page_size)

unfoldable pub cxl_ptr_page : ℕ → ℕ
unfolding cxl_ptr_segment cxl_segment_page_of
cxl_ptr_page p = cxl_segment_page_of (cxl_ptr_segment p) p

-- `page - segment->meta_page` counts pages.
unfoldable pub cxl_page_start : ℕ → ℕ → ℕ
cxl_page_start segment page = segment + (page - meta_page_at segment 0) / cxl_page_size * page_size

unfoldable pub cxl_page_block_at : ℕ → ℕ → ℕ → ℕ
cxl_page_block_at page_start block_size i = page_start + i * block_size

-- The allocation state of a segment: `(segment - SEGMENTS_AREA_START) / SEGMENT_SIZE`.
unfoldable pub sas_of_segment : ℕ → ℕ
sas_of_segment segment = sas_at ((segment - segments_area_start) / segment_size)

unfoldable pub pack_machine_process_id : ℕ → ℕ → ℕ
pack_machine_process_id machine_id process_id = u64 (machine_id * 2 ^ 16 + process_id)

unfoldable pub pack_ref_info : ℕ → ℕ → ℕ → ℕ
pack_ref_info lcid ref_cnt lenum = u64 (lcid * 2 ^ 48 + ref_cnt * 2 ^ 32 + lenum)

unfoldable pub get_ref_cnt_from_info : ℕ → ℕ
get_ref_cnt_from_info ref_info = ref_info / 2 ^ 32 % 2 ^ 16

unfoldable pub get_lenum_from_info : ℕ → ℕ
get_lenum_from_info ref_info = ref_info % 2 ^ 32

unfoldable pub get_lcid_from_info : ℕ → ℕ
get_lcid_from_info ref_info = ref_info / 2 ^ 48 % 2 ^ 16

-- `era_start + (x-1)*MAX_THREAD + (y-1)`, four bytes each. The start exceeds what is taken off, so
-- the truncated subtraction is the source's also for `x` or `y` 0.
unfoldable pub era : ℕ → ℕ → ℕ
era x y = era_array_start + 4 * max_thread * x + 4 * y - 4 * max_thread - 4

-- The address of a bin of `pages`. An index from 66 on is past the end of the array.
unfoldable pub cxl_page_queue : ℕ → Bool → ℕ → ℕ
cxl_page_queue tls special size =
    let by_size = pages_at tls ((size - 1) / 16 + 2) in
    if special
    then (if size == root_ref_size
        then pages_at tls 0
        else if size == message_queue_size
        then pages_at tls 1
        else by_size)
    else by_size

-- The bucket of a key: `key & ((1 << 17) - 1)` words into the table of a partition.
unfoldable pub hash_entry : ℕ → ℕ → ℕ
hash_entry partition key = hash_table_start + partition * hash_table_size + 8 * (key % 2 ^ 17)
