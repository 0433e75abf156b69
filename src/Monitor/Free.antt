-- ===== src/Monitor/Free.antt =====
-- How the monitor lets go of a reference and frees a block for a dead thread.
use sosp_paper19_ae.Base.{ℕ, zero, suc, Bool, false, ◌||◌, ◌==◌, if◌then◌else◌}
use sosp_paper19_ae.Memory.{
  Mem, store, memset, ok, out_of_fuel, Cmd, pure, ◌>>=◌, ◌>>◌, modify, peek,
}
use sosp_paper19_ae.Layout.{
  ref_info_at, cxl_page_size, cxl_segment_struct_size, sas_thread_free_at, cxl_ptr_segment,
  cxl_ptr_page, sas_of_segment, pack_ref_info, get_ref_cnt_from_info,
}
use sosp_paper19_ae.Handle.{
  Shm, current_era, advance_era, segment_thread_id, page_block_size, sas_thread_id,
  set_sas_thread_id,
}
use sosp_paper19_ae.Alloc.{cleared_size}
use sosp_paper19_ae.RefCount.{note_era, cnt_pred, others_left, for_embedded}

-- A block of the dead thread's own segments is only cleared.
unfoldable pub recovery_cxl_free : Shm → Bool → ℕ → Mem → Mem
recovery_cxl_free s special b m =
    let m1 = memset m b (cleared_size special (page_block_size m (cxl_ptr_page b))) in
    let segment = cxl_ptr_segment b in
    let sas = sas_of_segment segment in
    if segment_thread_id m1 segment == s.thread_id
    then m1
    else store (store m1 b (m1 (sas_thread_free_at sas))) (sas_thread_free_at sas) b

-- The loop of `recovery_unlink_reference`: no log is written.
unfoldable pub recovery_drop_reference : Shm → ℕ → ℕ → Mem → Mem
recovery_drop_reference s ref refed m =
    let info = m (ref_info_at refed) in
    let cnt = get_ref_cnt_from_info info in
    let cur_era = current_era s m in
    let m1 = note_era s.thread_id info m in
    let m2 = store m1 (ref_info_at refed) (pack_ref_info s.thread_id (cnt_pred cnt) cur_era) in
    advance_era s (store m2 ref 0)

unfoldable pub recovery_unlink_reference : Shm → ℕ → ℕ → Mem → Mem
recovery_unlink_reference s ref refed m =
    let m1 = recovery_drop_reference s ref refed m in
    if others_left (m (ref_info_at refed)) then m1 else recovery_cxl_free s false refed m1

-- `ref` is the address of the reference. An object with a count of 0 is left alone.
unfoldable pub recovery_test_free : ℕ → ℕ → Shm → ℕ → Cmd (Unit {0})
recovery_test_free rounds zero s ref = λ _. out_of_fuel
recovery_test_free rounds (suc fuel) s ref =
    let visit = recovery_test_free rounds fuel s in
    do
      refed ← peek ref
      info ← peek (ref_info_at refed)
      if (refed == 0) || (get_ref_cnt_from_info info == 0)
          then pure tt
          else if others_left info
          then modify (recovery_unlink_reference s ref refed)
          else (do
            for_embedded rounds visit refed 0
            again ← peek ref
            modify (recovery_unlink_reference s ref again))

unfoldable pub recovery_cxl_page_free : ℕ → Mem → Mem
recovery_cxl_page_free page m = memset m page cxl_page_size

-- The last loop ends at once if the allocation state belongs to the dead thread, else never.
unfoldable pub recovery_cxl_segment_free : Shm → ℕ → Cmd (Unit {0})
recovery_cxl_segment_free s segment m =
    let m1 = memset m segment cxl_segment_struct_size in
    let sas = sas_of_segment segment in
    if sas_thread_id m1 sas == s.thread_id then ok tt (set_sas_thread_id sas 0 m1) else out_of_fuel
