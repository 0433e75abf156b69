-- ===== src/Monitor/Scan.antt =====
-- The second loop of `monitor::single_recovery_loop`: segments in which nothing is alive.
use sosp_paper19_ae.Base.{
  ℕ, zero, suc, ◌+◌, ◌-◌, ◌*◌, ◌/◌, Bool, true, false, not, ◌||◌, ltb, ◌==◌, if◌then◌else◌,
}
use sosp_paper19_ae.Memory.{
  Mem, memset, bits0, bits16, byte0, ok, out_of_fuel, Cmd, pure, ◌>>=◌, ◌>>◌, gets, modify,
}
use sosp_paper19_ae.Layout.{
  page_size, segment_size, pages_per_segment, segments_area_start, cxl_page_size, is_msg_at,
  cxl_segment_struct_size, meta_page_at, sas_at, message_queue_size, ids_at, normal, cxl_page_start,
  cxl_page_block_at,
}
use sosp_paper19_ae.Handle.{page_block_size, sas_thread_id, set_sas_thread_id, set_sas_info}
use sosp_paper19_ae.Monitor.Sweep.{has_live_object}

-- `page->is_msg_queue_page`
unfoldable pub is_msg_queue_page : Mem → ℕ → Bool
is_msg_queue_page m page = not (byte0 (m (is_msg_at page)) == 0)

-- `receiver_id != 0 || sender_id != 0`
unfoldable pub queue_is_live : Mem → ℕ → Bool
queue_is_live m queue = not (bits16 (m (ids_at queue)) == 0) || not (bits0 (m (ids_at queue)) == 0)

-- The blocks of a page of message queues: those before the first live one are cleared.
unfoldable pub has_live_queue : ℕ → ℕ → ℕ → ℕ → Cmd Bool
has_live_queue zero page block last = λ _. out_of_fuel
has_live_queue (suc rounds) page block last = λ m.
    let rest = has_live_queue rounds page (block + page_block_size m page) last in
    if ltb last block
    then ok false m
    else if queue_is_live m block
    then ok true m
    else rest (memset m block message_queue_size)

-- A page with nothing alive is cleared.
unfoldable pub scan_page : ℕ → ℕ → ℕ → Cmd Bool
scan_page fuel segment page = do
  size ← gets (λ m. page_block_size m page)
  msg ← gets (λ m. is_msg_queue_page m page)
  let area = cxl_page_start segment page
  let first = cxl_page_block_at area size 0
  let last = cxl_page_block_at area size (page_size / size - 1)
  live ← (if msg then has_live_queue fuel page first last else has_live_object fuel page first last)
  if live then pure true else (do modify (λ m. memset m page cxl_page_size); pure false)

-- The pages of a segment from index `j` on; a page with a block size of 0 is passed over, and the
-- first page with something alive ends the loop.
unfoldable pub scan_pages : ℕ → ℕ → ℕ → ℕ → Cmd Bool
scan_pages fuel zero segment j = pure false
scan_pages fuel (suc n) segment j = λ m.
    let rest = scan_pages fuel n segment (j + 1) in
    let visit = (do
      live ← scan_page fuel segment (meta_page_at segment j)
      if live then pure true else rest) in
    if page_block_size m (meta_page_at segment j) == 0 then rest m else visit m

-- What is done with a segment in which nothing is alive.
unfoldable pub release_segment : ℕ → Mem → Mem
release_segment i m =
    let m1 = memset m (segments_area_start + i * segment_size) cxl_segment_struct_size in
    set_sas_thread_id (sas_at i) 0 (set_sas_info (sas_at i) normal 0 m1)

unfoldable pub scan_segment : ℕ → ℕ → Cmd (Unit {0})
scan_segment fuel i = do
  owner ← gets (λ m. sas_thread_id m (sas_at i))
  if owner == 0 then pure tt else (do
    live ← scan_pages fuel pages_per_segment (segments_area_start + i * segment_size) 0
    if live then pure tt else modify (release_segment i))

unfoldable pub scan_segments : ℕ → ℕ → ℕ → Cmd (Unit {0})
scan_segments fuel zero i = pure tt
scan_segments fuel (suc n) i = do scan_segment fuel i; scan_segments fuel n (i + 1)
