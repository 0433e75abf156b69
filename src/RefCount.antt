-- ===== src/RefCount.antt =====
-- The reference counts of src/cxl_shm.cpp: `link_reference`, `unlink_reference`, `test_free`, as
-- one thread runs them while no other writes, so that each compare-exchange succeeds. The module
-- `Protocol` has them interleaved with other threads.
pub mod Frame
pub mod Count
mod Tests
use sosp_paper19_ae.Base.{
  ℕ, zero, suc, ◌+◌, ◌-◌, ◌*◌, ◌%◌, ◌^◌, Bool, false, ltb, ◌==◌, if◌then◌else◌,
}
use sosp_paper19_ae.Memory.{
  Mem, store, u64, load32, store32, out_of_fuel, Cmd, pure, ◌>>=◌, ◌>>◌, modify, peek,
}
use sosp_paper19_ae.Layout.{
  redo_cacheline_cnt, cxlobj_size, ref_info_at, embedded_ref_cnt_at, redo_at, link_ref, unlink_ref,
  pack_ref_info, get_ref_cnt_from_info, get_lenum_from_info, get_lcid_from_info, era,
}
use sosp_paper19_ae.Handle.{Shm, current_era, advance_era}
use sosp_paper19_ae.Alloc.{cxl_free}

-- `if(saw_era > *ele) *ele = saw_era` for the client and the era that a word of `ref_info` names.
unfoldable pub note_era : ℕ → ℕ → Mem → Mem
note_era thread_id info m =
    let ele = era thread_id (get_lcid_from_info info) in
    if ltb (load32 m ele) (get_lenum_from_info info)
    then store32 m ele (get_lenum_from_info info)
    else m

-- The place of the log of an era: `tls->redo + 64*(cur_era & (REDO_CACHELINE_CNT - 1))`.
abbrev pub redo_slot : ℕ → ℕ → ℕ
redo_slot tls cur_era = redo_at tls (cur_era % redo_cacheline_cnt)

-- `redo_log{func_id, saved_ref_cnt, cur_era, ref, refed, 0}`
unfoldable pub write_redo : ℕ → ℕ → ℕ → ℕ → ℕ → ℕ → Mem → Mem
write_redo tls func_id saved_ref_cnt cur_era ref refed m =
    let slot = redo_slot tls cur_era in
    let m1 = store m slot (func_id + saved_ref_cnt * 2 ^ 16 + cur_era * 2 ^ 32) in
    store (store (store m1 (slot + 8) ref) (slot + 16) refed) (slot + 24) 0

-- `ref_info_cnt - 1`, converted from `int` to `uint64_t`.
abbrev pub cnt_pred : ℕ → ℕ
cnt_pred cnt = if cnt == 0 then 2 ^ 64 - 1 else cnt - 1

-- The loop of `link_reference` up to the compare-exchange.
unfoldable pub log_link : Shm → ℕ → ℕ → Mem → Mem
log_link s ref refed m =
    let info = m (ref_info_at refed) in
    let cur_era = current_era s m in
    write_redo s.tls_offset link_ref (get_ref_cnt_from_info info) cur_era ref refed
      (note_era s.thread_id info m)

-- And with it.
unfoldable pub count_link : Shm → ℕ → ℕ → Mem → Mem
count_link s ref refed m =
    let cnt = get_ref_cnt_from_info (m (ref_info_at refed)) in
    store (log_link s ref refed m) (ref_info_at refed)
      (pack_ref_info s.thread_id (cnt + 1) (current_era s m))

unfoldable pub link_reference : Shm → ℕ → ℕ → Mem → Mem
link_reference s ref refed m = advance_era s (store (count_link s ref refed m) ref refed)

-- The loop of `unlink_reference` up to the compare-exchange. The current era is read after
-- `note_era`.
unfoldable pub log_unlink : Shm → ℕ → ℕ → Mem → Mem
log_unlink s ref refed m =
    let info = m (ref_info_at refed) in
    let m1 = note_era s.thread_id info m in
    write_redo s.tls_offset unlink_ref (get_ref_cnt_from_info info) (current_era s m1) ref refed m1

unfoldable pub count_unlink : Shm → ℕ → ℕ → Mem → Mem
count_unlink s ref refed m =
    let info = m (ref_info_at refed) in
    let cur_era = current_era s (note_era s.thread_id info m) in
    store (log_unlink s ref refed m) (ref_info_at refed)
      (pack_ref_info s.thread_id (cnt_pred (get_ref_cnt_from_info info)) cur_era)

unfoldable pub drop_reference : Shm → ℕ → ℕ → Mem → Mem
drop_reference s ref refed m = advance_era s (store (count_unlink s ref refed m) ref 0)

-- `get_ref_cnt_from_info(ref_info)-1 > 0` in `uint64_t`.
unfoldable pub others_left : ℕ → Bool
others_left info = ltb 0 (u64 (get_ref_cnt_from_info info + 2 ^ 64 - 1))

unfoldable pub unlink_reference : Shm → ℕ → ℕ → Cmd (Unit {0})
unlink_reference s ref refed = do
  info ← peek (ref_info_at refed)
  modify (drop_reference s ref refed)
  if others_left info then pure tt else cxl_free s false refed

-- `for(size_t i=0; i<refed->embedded_ref_cnt; i++)` with a call at the address of each reference.
unfoldable pub for_embedded : ℕ → (ℕ → Cmd (Unit {0})) → ℕ → ℕ → Cmd (Unit {0})
for_embedded zero visit refed i = λ _. out_of_fuel
for_embedded (suc rounds) visit refed i =
    let rest = for_embedded rounds visit refed (i + 1) in
    do
      cnt ← peek (embedded_ref_cnt_at refed)
      if ltb i cnt then (visit (refed + cxlobj_size + 8 * i) >> rest) else pure tt

-- `ref` is the address of the reference, which is read again at the end. `fuel` bounds the depth, `rounds` the embedded references.
unfoldable pub test_free : ℕ → ℕ → Shm → ℕ → Cmd (Unit {0})
test_free rounds zero s ref = λ _. out_of_fuel
test_free rounds (suc fuel) s ref =
    let visit = test_free rounds fuel s in
    do
      refed ← peek ref
      info ← peek (ref_info_at refed)
      if refed == 0 then pure tt else if others_left info then unlink_reference s ref refed else (do
        for_embedded rounds visit refed 0
        again ← peek ref
        unlink_reference s ref again)
