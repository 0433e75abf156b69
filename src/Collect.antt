-- ===== src/Collect.antt =====
-- `cxl_shm::normal_garbage_collection` of src/recovery.cpp, with which a thread gives back all that
-- it holds; and the loops over message queues that the monitor's collection shares with it.
-- `fuel` bounds the lists, `rounds` the blocks of a page.
use sosp_paper19_ae.Base.{
  ℕ, zero, suc, ◌+◌, ◌-◌, ◌/◌, ◌%◌, Bool, true, false, ltb, ◌==◌, if◌then◌else◌,
}
use sosp_paper19_ae.Memory.{
  Mem, store, bits16, with_bits0, with_bits16, byte0, ok, out_of_fuel, Cmd, pure, ◌>>=◌, ◌>>◌, gets,
  modify, peek, poke, divide_by,
}
use sosp_paper19_ae.Layout.{
  page_size, cxl_bin_size, message_buffer_size, root_ref_size, root_flags_at, next_at, sas_state_at,
  packed_id_at, pages_at, sender_queue_at, receiver_queue_at, end_at, ids_at, sender_next_at,
  receiver_next_at, buffer_at, abandon, cxl_ptr_segment, cxl_page_start, cxl_page_block_at,
  sas_of_segment, cxl_page_queue,
}
use sosp_paper19_ae.Handle.{Shm, page_used, page_block_size}
use sosp_paper19_ae.Page.{cxl_thread_free_collect, cxl_page_free}
use sosp_paper19_ae.Alloc.{cxl_free}
use sosp_paper19_ae.RefCount.{test_free}
use sosp_paper19_ae.Ref.{clear_in_use}
use sosp_paper19_ae.Thread.{reset_tls}

-- `tbr->in_use == 1`
unfoldable pub in_use : Mem → ℕ → Bool
in_use m tbr = byte0 (m (root_flags_at tbr)) == 1

-- The first and the last block of a page.
unfoldable pub first_block : Mem → ℕ → ℕ
first_block m page =
    cxl_page_block_at (cxl_page_start (cxl_ptr_segment page) page) (page_block_size m page) 0

unfoldable pub last_block : Mem → ℕ → ℕ
last_block m page =
    cxl_page_block_at (cxl_page_start (cxl_ptr_segment page) page) (page_block_size m page)
      (page_size / page_block_size m page - 1)

-- `{state, info.thread_free}` with a new state.
unfoldable pub set_sas_state : ℕ → ℕ → Mem → Mem
set_sas_state sas state m = store m (sas_state_at sas) state

unfoldable pub abandon_segment_of : ℕ → Mem → Mem
abandon_segment_of p m = set_sas_state (sas_of_segment (cxl_ptr_segment p)) abandon m

-- A root reference in use: its object is let go, then the block is freed. `true` ends the loop,
-- since the page has been freed with its last block.
unfoldable pub collect_root : ℕ → Shm → ℕ → ℕ → Cmd Bool
collect_root fuel s page tbr = do
  test_free fuel fuel s tbr
  modify (clear_in_use tbr)
  flag ← gets (λ m. page_used m page == 1)
  cxl_free s true tbr
  pure flag

unfoldable pub collect_roots : ℕ → ℕ → Shm → ℕ → ℕ → ℕ → Cmd (Unit {0})
collect_roots fuel zero s page block last = λ _. out_of_fuel
collect_roots fuel (suc rounds) s page block last = λ m.
    let rest = collect_roots fuel rounds s page (block + page_block_size m page) last in
    let visit = (do done ← collect_root fuel s page block; if done then pure tt else rest) in
    if ltb last block then ok tt m else if in_use m block then visit m else rest m

unfoldable pub collect_root_pages : ℕ → ℕ → Shm → ℕ → Cmd (Unit {0})
collect_root_pages fuel zero s page = λ _. out_of_fuel
collect_root_pages fuel (suc pages) s page = λ m.
    let rest = collect_root_pages fuel pages s (m (next_at page)) in
    let visit = (do
      divide_by (page_block_size m page)
      collect_roots fuel fuel s page (first_block m page) (last_block m page)
      rest) in
    if page == 0 then ok tt m else visit m

-- A slot of a message queue that holds a reference is handed to `free`.
unfoldable pub free_slot : (ℕ → Cmd (Unit {0})) → ℕ → ℕ → Cmd (Unit {0})
free_slot free queue i = do
  object ← peek (buffer_at queue i)
  if object == 0 then pure tt else free (buffer_at queue i)

-- `do … while (i != start)`, which returns `i`.
unfoldable pub free_until_start : (ℕ → Cmd (Unit {0})) → ℕ → ℕ → ℕ → Cmd ℕ
free_until_start free zero queue i = λ _. out_of_fuel
free_until_start free (suc rounds) queue i =
    let rest = free_until_start free rounds queue ((i + 1) % message_buffer_size) in
    do
      free_slot free queue i
      start ← peek queue
      if (i + 1) % message_buffer_size == start then pure ((i + 1) % message_buffer_size) else rest

-- `while (i != end)`
unfoldable pub free_until_end : (ℕ → Cmd (Unit {0})) → ℕ → ℕ → ℕ → Cmd (Unit {0})
free_until_end free zero queue i = λ _. out_of_fuel
free_until_end free (suc rounds) queue i =
    let rest = free_until_end free rounds queue ((i + 1) % message_buffer_size) in
    do end ← peek (end_at queue); if i == end then pure tt else (free_slot free queue i >> rest)

-- More rounds than slots.
abbrev pub slot_fuel : ℕ
slot_fuel = message_buffer_size + 1

-- A queue of the thread as sender: the slots outside `start … end`, and those inside too if no
-- receiver has joined.
unfoldable pub collect_sender_queue : (ℕ → Cmd (Unit {0})) → ℕ → Cmd (Unit {0})
collect_sender_queue free queue = do
  end ← peek (end_at queue)
  i ← free_until_start free slot_fuel queue end
  receiver ← gets (λ m. bits16 (m (ids_at queue)))
  if receiver == 0 then free_until_end free slot_fuel queue i else pure tt
  modify (λ m. store m (ids_at queue) (with_bits0 (m (ids_at queue)) 0))
  modify (abandon_segment_of queue)

unfoldable pub collect_sender_queues : (ℕ → Cmd (Unit {0})) → ℕ → ℕ → Cmd (Unit {0})
collect_sender_queues free zero queue = λ _. out_of_fuel
collect_sender_queues free (suc fuel) queue = λ m.
    let rest = collect_sender_queues free fuel (m (sender_next_at queue)) in
    let visit = collect_sender_queue free queue >> rest in if queue == 0 then ok tt m else visit m

-- A queue of the thread as receiver: the slots inside `start … end`.
unfoldable pub collect_receiver_queue : (ℕ → Cmd (Unit {0})) → ℕ → Cmd (Unit {0})
collect_receiver_queue free queue = do
  start ← peek queue
  free_until_end free slot_fuel queue start
  modify (λ m. store m (ids_at queue) (with_bits16 (m (ids_at queue)) 0))

unfoldable pub collect_receiver_queues : (ℕ → Cmd (Unit {0})) → ℕ → ℕ → Cmd (Unit {0})
collect_receiver_queues free zero queue = λ _. out_of_fuel
collect_receiver_queues free (suc fuel) queue = λ m.
    let rest = collect_receiver_queues free fuel (m (receiver_next_at queue)) in
    let visit = collect_receiver_queue free queue >> rest in if queue == 0 then ok tt m else visit m

-- A page of objects: freed if nothing of it is used, else its segment is abandoned.
unfoldable pub collect_object_page : ℕ → Shm → ℕ → Cmd (Unit {0})
collect_object_page fuel s page = do
  cxl_thread_free_collect fuel page
  used ← gets (λ m. page_used m page)
  size ← gets (λ m. page_block_size m page)
  if used == 0
      then cxl_page_free s page (cxl_page_queue s.tls_offset false size)
      else modify (abandon_segment_of page)

-- `next` is read before the page is looked at.
unfoldable pub collect_object_pages : ℕ → ℕ → Shm → ℕ → Cmd (Unit {0})
collect_object_pages fuel zero s page = λ _. out_of_fuel
collect_object_pages fuel (suc pages) s page = λ m.
    let rest = collect_object_pages fuel pages s (m (next_at page)) in
    let visit = collect_object_page fuel s page >> rest in if page == 0 then ok tt m else visit m

-- The loop over the bins from `i` on.
unfoldable pub collect_bins : ℕ → ℕ → Shm → ℕ → Cmd (Unit {0})
collect_bins fuel zero s i = pure tt
collect_bins fuel (suc n) s i = do
  page ← peek (pages_at s.tls_offset i)
  collect_object_pages fuel fuel s page
  collect_bins fuel n s (i + 1)

unfoldable pub normal_garbage_collection : ℕ → Shm → Cmd (Unit {0})
normal_garbage_collection fuel s = do
  roots ← peek (cxl_page_queue s.tls_offset true root_ref_size)
  collect_root_pages fuel fuel s roots
  senders ← peek (sender_queue_at s.tls_offset)
  collect_sender_queues (test_free fuel fuel s) fuel senders
  receivers ← peek (receiver_queue_at s.tls_offset)
  collect_receiver_queues (test_free fuel fuel s) fuel receivers
  collect_bins fuel (cxl_bin_size - 2) s 2
  modify (reset_tls s.tls_offset)
  poke (packed_id_at s.tls_offset) 0
