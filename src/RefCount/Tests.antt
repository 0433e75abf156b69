-- ===== src/RefCount/Tests.antt =====
-- A thread links a second reference to an object, and drops it again.
use sosp_paper19_ae.Base.{ℕ, ◌+◌, ◌≡◌, arith, ◌==◌, if◌then◌else◌, ◌-◌, ◌≤◌}
use sosp_paper19_ae.Memory.{Mem, store}
use sosp_paper19_ae.Layout.{
  segments_area_start, ref_info_at, pack_ref_info, get_ref_cnt_from_info, get_lcid_from_info,
}
use sosp_paper19_ae.Handle.{current_era}
use sosp_paper19_ae.Thread.{handle_of}
use sosp_paper19_ae.RefCount.{link_reference, drop_reference}
use sosp_paper19_ae.RefCount.Frame.{HasClient}
use sosp_paper19_ae.RefCount.Count.{link_reference-high, unlink_era, drop_reference-high}

abbrev object : ℕ
object = segments_area_start + 8192

abbrev ref : ℕ
ref = segments_area_start + 12288

abbrev region : Mem
region = store (λ _. 0) (ref_info_at object) (pack_ref_info 1 1 1)

one_client : HasClient (region (ref_info_at object))
unfolding store pack_ref_info get_lcid_from_info
one_client = (omega arith, omega arith)

one_count : 1 ≤ get_ref_cnt_from_info (region (ref_info_at object))
unfolding store pack_ref_info get_ref_cnt_from_info
one_count = omega arith

link_reference-high_example :
    link_reference (handle_of 0 0) ref object region (ref_info_at object) ≡ (
      if ref_info_at object == ref
      then object
      else if ref_info_at object == ref_info_at object
      then pack_ref_info
          (0 + 1)
          (get_ref_cnt_from_info (region (ref_info_at object)) + 1)
          (current_era (handle_of 0 0) region)
      else region (ref_info_at object))
link_reference-high_example =
    link_reference-high 0 0 (omega arith) ref object region one_client (ref_info_at object)
      (omega arith)

drop_reference-high_example :
    drop_reference (handle_of 0 0) ref object region (ref_info_at object) ≡ (
      if ref_info_at object == ref
      then 0
      else if ref_info_at object == ref_info_at object
      then pack_ref_info
          (0 + 1)
          (get_ref_cnt_from_info (region (ref_info_at object)) - 1)
          (unlink_era 0 0 (omega arith) ref object region one_client)
      else region (ref_info_at object))
drop_reference-high_example =
    drop_reference-high 0 0 (omega arith) ref object region one_client one_count
      (ref_info_at object) (omega arith)
