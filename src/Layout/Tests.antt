-- ===== src/Layout/Tests.antt =====
-- The address arithmetic at concrete offsets.
use sosp_paper19_ae.Base.{◌+◌, ◌%◌, ◌^◌, ◌≤◌, ◌≡◌, false, arith}
use sosp_paper19_ae.Layout.{
  segments_area_start, cxlobj_size, free_page_at, tls_at, cxl_ptr_segment, cxl_ptr_page,
  pack_ref_info, get_ref_cnt_from_info, get_lcid_from_info, cxl_page_queue, hash_entry,
}
use sosp_paper19_ae.Layout.Pointers.{segment_at, page_at, block_at, cxl_ptr_page-block}
use sosp_paper19_ae.Layout.Bins.{cxl_page_queue_out_of_range}
use sosp_paper19_ae.Layout.RefInfo.{pack_ref_info_overflow}
use sosp_paper19_ae.Layout.Regions.{hash_entry_overlaps}

-- The last byte of block 1364 of 48 bytes in page 3 of segment 2.
cxl_ptr_page-block_example :
    (cxl_ptr_segment (block_at 2 3 48 1364 + 47) ≡ segment_at 2)
    × (cxl_ptr_page (block_at 2 3 48 1364 + 47) ≡ page_at 2 3)
cxl_ptr_page-block_example =
    cxl_ptr_page-block 2 3 48 1364 47 (omega arith) (omega arith) (omega arith)

-- A `cxl_malloc` of 1001 bytes.
cxl_page_queue_out_of_range_example :
    (free_page_at (tls_at 0) ≤ cxl_page_queue (tls_at 0) false (1001 + cxlobj_size))
    × (1001 + cxlobj_size ≤ 1040
        → cxl_page_queue (tls_at 0) false (1001 + cxlobj_size) ≡ free_page_at (tls_at 0))
cxl_page_queue_out_of_range_example =
    cxl_page_queue_out_of_range (tls_at 0) (1001 + cxlobj_size) (omega arith)

pack_ref_info_overflow_example :
    (get_ref_cnt_from_info (pack_ref_info 7 (2 ^ 16) 300) ≡ 0)
    × (get_lcid_from_info (pack_ref_info 7 (2 ^ 16) 300) ≡ (7 + 1) % 2 ^ 16)
pack_ref_info_overflow_example = pack_ref_info_overflow 7 300 (omega arith) (omega arith)

hash_entry_overlaps_example : segments_area_start ≤ hash_entry 64 12
hash_entry_overlaps_example = hash_entry_overlaps 64 12 (omega arith)
