-- ===== src/Redo.antt =====
-- `monitor::redo_ref_cnt` of src/recovery.cpp: after a thread has died, finish the reference update
-- that it was in, if its count has been made.
pub mod Newest
pub mod Logged
pub mod Crash
pub mod Before
mod Tests
pub mod Frame
pub mod BeforeUnlink
use sosp_paper19_ae.Base.{
  ℕ, zero, suc, ◌+◌, ◌-◌, ◌/◌, Bool, true, ◌&&◌, ltb, leb, ◌==◌, if◌then◌else◌,
}
use sosp_paper19_ae.Memory.{Mem, store, hi32, bits0, bits16, load32}
use sosp_paper19_ae.Layout.{
  thread_local_vec_start, max_thread, redo_cacheline_cnt, ref_info_at, tls_size, redo_at,
  potential_leaking, link_ref, unlink_ref, cxl_ptr_segment, sas_of_segment, get_ref_cnt_from_info,
  get_lenum_from_info, get_lcid_from_info, era,
}
use sosp_paper19_ae.Handle.{Shm}
use sosp_paper19_ae.Collect.{set_sas_state}

-- The thread whose state is at `offset`, as the monitor computes its id.
abbrev pub dead_thread : ℕ → ℕ → Shm
dead_thread size offset = record {
  size = size;
  tls_offset = offset;
  thread_id = (offset - thread_local_vec_start) / tls_size + 1;
}

-- The fields of `redo_log` at an offset.
unfoldable pub log_func_id : Mem → ℕ → ℕ
log_func_id m log = bits0 (m log)

unfoldable pub log_saved_ref_cnt : Mem → ℕ → ℕ
log_saved_ref_cnt m log = bits16 (m log)

unfoldable pub log_era : Mem → ℕ → ℕ
log_era m log = hi32 (m log)

abbrev pub log_ref : Mem → ℕ → ℕ
log_ref m log = m (log + 8)

abbrev pub log_refed : Mem → ℕ → ℕ
log_refed m log = m (log + 16)

-- The loop over the logs: the best of the first `n`, the earlier one where eras are equal.
unfoldable pub newest_log : ℕ → ℕ → Mem → ℕ
newest_log zero tls m = redo_at tls 0
newest_log (suc n) tls m =
    let best = newest_log n tls m in
    if ltb (log_era m best) (log_era m (redo_at tls n)) then redo_at tls n else best

-- The loop over `j`: the highest era that a thread `j < n` has seen, `id` itself left out.
unfoldable pub max_seen : ℕ → ℕ → (ℕ → ℕ) → ℕ
max_seen zero id seen = 0
max_seen (suc j) id seen =
    let rest = max_seen j id seen in
    if j == id then rest else if ltb rest (seen j) then seen j else rest

-- The test for `need_redo`: the count of the update of era `cur_era` of thread `id` has been made,
-- since the object shows it, or another thread has seen it.
unfoldable pub is_counted : ℕ → ℕ → ℕ → ℕ → (ℕ → ℕ) → Bool
is_counted id lo_cid lo_era cur_era seen =
    if (lo_cid == id) && (lo_era == cur_era)
    then true
    else leb cur_era (max_seen max_thread id seen)

unfoldable pub need_redo : ℕ → ℕ → Mem → Bool
need_redo id log m =
    let info = m (ref_info_at (log_refed m log)) in
    is_counted id (get_lcid_from_info info) (get_lenum_from_info info) (log_era m log)
      (λ j. load32 m (era j id))

unfoldable pub write_if : Bool → ℕ → ℕ → Mem → Mem
write_if b a v m = if b then store m a v else m

-- `if(get_ref_cnt_from_info(redo->saved_ref_cnt) == 1)`: the test reads bits 32 to 47 of a 16-bit
-- number.
unfoldable pub mark_leaking : ℕ → Mem → Mem
mark_leaking log m =
    if get_ref_cnt_from_info (log_saved_ref_cnt m log) == 1
    then set_sas_state (sas_of_segment (cxl_ptr_segment (log_refed m log))) potential_leaking m
    else m

unfoldable pub redo_ref_cnt : Shm → Mem → Mem
redo_ref_cnt s m =
    let log = newest_log redo_cacheline_cnt s.tls_offset m in
    if log_func_id m log == link_ref
    then write_if (need_redo s.thread_id log m) (log_ref m log) (log_refed m log) m
    else if log_func_id m log == unlink_ref
    then mark_leaking log (write_if (need_redo s.thread_id log m) (log_ref m log) 0 m)
    else m
