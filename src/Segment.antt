-- ===== src/Segment.antt =====
-- src/segment.cpp: pages out of the free queue, segments out of the table of allocation states.
-- A compare-exchange is not interfered with and does not fail spuriously.
pub mod Claim
mod Tests
pub mod FreeQueue
pub mod Take
pub mod Refill
pub mod Free
pub mod Remove
use sosp_paper19_ae.Base.{
  ℕ, zero, suc, ◌+◌, ◌-◌, ◌*◌, ◌/◌, Option, none, some, ltb, ◌==◌, if◌then◌else◌,
}
use sosp_paper19_ae.Memory.{
  Mem, store, memset, u32, with_hi32, ok, out_of_fuel, Cmd, pure, ◌>>=◌, ◌>>◌, modify, peek,
}
use sosp_paper19_ae.Layout.{
  segment_size, pages_per_segment, segments_area_start, cxl_segment_struct_size, meta_page_at,
  sas_at, free_page_at, normal, cxl_ptr_segment, sas_of_segment,
}
use sosp_paper19_ae.Handle.{
  Shm, segment_used, set_segment_used, set_segment_thread_id, sas_thread_id, set_sas_thread_id,
  set_sas_info,
}
use sosp_paper19_ae.PageQueue.{cxl_page_queue_push, cxl_page_queue_remove}

-- The loop of `cxl_segment_alloc`: claim the first allocation state from `i` on that belongs to no
-- thread. `none` is the return of NULL when the next segment would end past `size`.
unfoldable pub claim_segment : ℕ → Shm → ℕ → Cmd (Option ℕ)
claim_segment zero s i = λ _. out_of_fuel
claim_segment (suc fuel) s i = λ m.
    let rest = claim_segment fuel s (i + 1) m in
    if ltb s.size (segments_area_start + (i + 1) * segment_size)
    then ok none m
    else if sas_thread_id m (sas_at i) == 0
    then ok (some i) (set_sas_thread_id (sas_at i) s.thread_id m)
    else rest

-- The loop that puts the pages `n` to 1 in front of the free queue.
unfoldable pub push_pages : ℕ → ℕ → ℕ → Mem → Mem
push_pages zero queue segment m = m
push_pages (suc n) queue segment m =
    push_pages n queue segment (cxl_page_queue_push queue (meta_page_at segment (suc n)) m)

-- What `cxl_segment_alloc` writes once it has claimed segment `i`.
unfoldable pub init_segment : Shm → ℕ → Mem → Mem
init_segment s i m =
    let segment = segments_area_start + i * segment_size in
    let m1 = store m (sas_at i) (with_hi32 (m (sas_at i)) normal) in
    let m2 = set_sas_info (sas_at i) 0 0 m1 in
    let m3 = set_segment_used segment 0 (set_segment_thread_id segment s.thread_id m2) in
    push_pages (pages_per_segment - 1) (free_page_at s.tls_offset) segment m3

-- More rounds than segments fit into `size`.
abbrev pub segment_fuel : Shm → ℕ
segment_fuel s = s.size / segment_size + 1

-- The offset of the new segment, or NULL.
unfoldable pub cxl_segment_alloc : Shm → Cmd ℕ
cxl_segment_alloc s = do
  found ← claim_segment (segment_fuel s) s 0
  elim found [
    | none ↦ pure 0
    | some i ↦ do modify (init_segment s i); pure (segments_area_start + i * segment_size)
  ]

-- The page to hand out, once there is one: `free_page.first`.
unfoldable pub take_page : Shm → ℕ → Mem → Mem
take_page s page m =
    let m1 = cxl_page_queue_remove (free_page_at s.tls_offset) page m in
    let segment = cxl_ptr_segment page in
    set_segment_used segment (u32 (segment_used m1 segment + 1)) m1

-- The second call finds the pages of the new segment; `fuel` counts the calls.
unfoldable pub cxl_segment_page_alloc : ℕ → Shm → Cmd ℕ
cxl_segment_page_alloc zero s = λ _. out_of_fuel
cxl_segment_page_alloc (suc fuel) s =
    let again = cxl_segment_page_alloc fuel s in
    do
      page ← peek (free_page_at s.tls_offset)
      if page == 0
          then (do segment ← cxl_segment_alloc s; if segment == 0 then pure 0 else again)
          else (do modify (take_page s page); pure page)

-- The loop that takes the pages `i` to `i + n - 1` out of the free queue.
unfoldable pub remove_pages : ℕ → ℕ → ℕ → ℕ → Mem → Mem
remove_pages zero queue segment i m = m
remove_pages (suc n) queue segment i m =
    remove_pages n queue segment (i + 1) (cxl_page_queue_remove queue (meta_page_at segment i) m)

-- The last loop ends at once if the allocation state belongs to the thread, and never otherwise.
unfoldable pub cxl_segment_free : Shm → ℕ → Cmd (Unit {0})
cxl_segment_free s segment m =
    let m1 = remove_pages (pages_per_segment - 1) (free_page_at s.tls_offset) segment 1 m in
    let m2 = memset m1 segment cxl_segment_struct_size in
    let sas = sas_of_segment segment in
    if sas_thread_id m2 sas == s.thread_id then ok tt (set_sas_thread_id sas 0 m2) else out_of_fuel
