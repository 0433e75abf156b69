-- ===== src/Monitor/Sweep.antt =====
-- `monitor::recovery_garbage_collection`: what a dead thread held.
use sosp_paper19_ae.Base.{
  ℕ, zero, suc, ◌+◌, ◌-◌, ◌*◌, Bool, true, false, not, ◌&&◌, ltb, leb, ◌==◌, if◌then◌else◌,
}
use sosp_paper19_ae.Memory.{
  Mem, store, ok, out_of_fuel, Cmd, pure, ◌>>=◌, ◌>>◌, gets, modify, peek, divide_by,
}
use sosp_paper19_ae.Layout.{
  segment_size, segments_area_start, cxl_bin_size, max_segment_num, ref_info_at, root_ref_size,
  next_at, sas_at, sas_state_at, packed_id_at, pages_at, sender_queue_at, receiver_queue_at,
  abandon, cxl_ptr_page, get_ref_cnt_from_info, cxl_page_queue,
}
use sosp_paper19_ae.Handle.{Shm, page_block_size, sas_thread_id}
use sosp_paper19_ae.Ref.{clear_in_use}
use sosp_paper19_ae.Thread.{reset_tls}
use sosp_paper19_ae.Collect.{
  in_use, first_block, last_block, abandon_segment_of, collect_sender_queues,
  collect_receiver_queues,
}
use sosp_paper19_ae.Monitor.Free.{
  recovery_cxl_free, recovery_test_free, recovery_cxl_page_free, recovery_cxl_segment_free,
}

-- The object of a root reference is let go unless its allocation was not finished: it is still the
-- head of the free list of its page, or it is a block of the page of root references.
unfoldable pub is_linked : ℕ → ℕ → ℕ → Mem → Bool
is_linked first last tbr m =
    let refed = m tbr in
    not (refed == 0)
    && (not (refed == m (cxl_ptr_page refed)) && not (leb first refed && leb refed last))

unfoldable pub sweep_root : ℕ → Shm → ℕ → ℕ → ℕ → Cmd (Unit {0})
sweep_root fuel s first last tbr = do
  linked ← gets (is_linked first last tbr)
  if linked then recovery_test_free fuel fuel s tbr else pure tt
  modify (clear_in_use tbr)
  modify (recovery_cxl_free s true tbr)

unfoldable pub sweep_roots : ℕ → ℕ → Shm → ℕ → ℕ → ℕ → ℕ → Cmd (Unit {0})
sweep_roots fuel zero s page first last block = λ _. out_of_fuel
sweep_roots fuel (suc rounds) s page first last block = λ m.
    let rest = sweep_roots fuel rounds s page first last (block + page_block_size m page) in
    let visit = sweep_root fuel s first last block >> rest in
    if ltb last block then ok tt m else if in_use m block then visit m else rest m

unfoldable pub sweep_root_pages : ℕ → ℕ → Shm → ℕ → Cmd (Unit {0})
sweep_root_pages fuel zero s page = λ _. out_of_fuel
sweep_root_pages fuel (suc pages) s page = λ m.
    let rest = sweep_root_pages fuel pages s (m (next_at page)) in
    let visit = (do
      divide_by (page_block_size m page)
      sweep_roots fuel fuel s page (first_block m page) (last_block m page) (first_block m page)
      modify (recovery_cxl_page_free page)
      rest) in
    if page == 0 then ok tt m else visit m

-- Is one of the blocks from `block` to `last` an object that is still counted?
unfoldable pub has_live_object : ℕ → ℕ → ℕ → ℕ → Cmd Bool
has_live_object zero page block last = λ _. out_of_fuel
has_live_object (suc rounds) page block last = λ m.
    let rest = has_live_object rounds page (block + page_block_size m page) last in
    if ltb last block
    then ok false m
    else if ltb 0 (get_ref_cnt_from_info (m (ref_info_at block)))
    then ok true m
    else rest m

-- The head of the free list may be an object that was not finished: its count is cleared.
unfoldable pub clear_page_free : ℕ → Mem → Mem
clear_page_free page m = if m page == 0 then m else store m (ref_info_at (m page)) 0

unfoldable pub sweep_object_page : ℕ → ℕ → Cmd (Unit {0})
sweep_object_page fuel page = do
  modify (clear_page_free page)
  first ← gets (λ m. first_block m page)
  size ← gets (λ m. page_block_size m page)
  divide_by size
  last ← gets (λ m. last_block m page)
  live ← has_live_object fuel page first last
  if live then modify (abandon_segment_of page) else modify (recovery_cxl_page_free page)

unfoldable pub sweep_object_pages : ℕ → ℕ → ℕ → Cmd (Unit {0})
sweep_object_pages fuel zero page = λ _. out_of_fuel
sweep_object_pages fuel (suc pages) page = λ m.
    let rest = sweep_object_pages fuel pages (m (next_at page)) in
    let visit = sweep_object_page fuel page >> rest in if page == 0 then ok tt m else visit m

unfoldable pub sweep_bins : ℕ → ℕ → Shm → ℕ → Cmd (Unit {0})
sweep_bins fuel zero s i = pure tt
sweep_bins fuel (suc n) s i = do
  page ← peek (pages_at s.tls_offset i)
  sweep_object_pages fuel fuel page
  sweep_bins fuel n s (i + 1)

-- The segments of the dead thread from index `i` on that are not abandoned.
unfoldable pub free_segments : ℕ → Shm → ℕ → Cmd (Unit {0})
free_segments zero s i = pure tt
free_segments (suc n) s i = do
  owner ← gets (λ m. sas_thread_id m (sas_at i))
  state ← peek (sas_state_at (sas_at i))
  if (owner == s.thread_id) && not (state == abandon)
      then recovery_cxl_segment_free s (segments_area_start + i * segment_size)
      else pure tt
  free_segments n s (i + 1)

-- The last loop ends at once if the slot holds `id`, and never otherwise.
unfoldable pub release_tls : ℕ → ℕ → Cmd (Unit {0})
release_tls tls id m =
    if m (packed_id_at tls) == id then ok tt (store m (packed_id_at tls) 0) else out_of_fuel

unfoldable pub recovery_garbage_collection : ℕ → Shm → ℕ → Cmd (Unit {0})
recovery_garbage_collection fuel s id = do
  roots ← peek (cxl_page_queue s.tls_offset true root_ref_size)
  sweep_root_pages fuel fuel s roots
  senders ← peek (sender_queue_at s.tls_offset)
  collect_sender_queues (recovery_test_free fuel fuel s) fuel senders
  receivers ← peek (receiver_queue_at s.tls_offset)
  collect_receiver_queues (recovery_test_free fuel fuel s) fuel receivers
  sweep_bins fuel (cxl_bin_size - 2) s 2
  free_segments max_segment_num s 0
  modify (reset_tls s.tls_offset)
  release_tls s.tls_offset id
