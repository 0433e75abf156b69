-- ===== src/Segment/Tests.antt =====
-- A region of three segments, the first of which belongs to a thread.
use sosp_paper19_ae.Segment.Remove.{erase_range, elem-page_range, page_range-out}
use sosp_paper19_ae.Segment.Free.{cxl_segment_free-Holds}
use sosp_paper19_ae.PageQueue.Frame.{Holds-outside}
use sosp_paper19_ae.Layout.Pointers.{page_at, segment_at}
use sosp_paper19_ae.Segment.Take.{Gives}
use sosp_paper19_ae.Segment.Refill.{cxl_segment_page_alloc-refill}
use sosp_paper19_ae.Base.{refl, [], ◌++◌, arith, ℕ, ◌+◌, ◌*◌, ◌≡◌, ◌≢◌, ◌<◌, ◌⊎◌, ◌≤◌, All}
use sosp_paper19_ae.Memory.{Mem, store, ok}
use sosp_paper19_ae.Layout.{
  free_page_at, tls_at, segment_size, segments_area_start, sas_at, last_at, next_at, prev_at,
  pages_per_segment,
}
use sosp_paper19_ae.Handle.{Shm, sas_thread_id, set_sas_thread_id, segment_used}
use sosp_paper19_ae.Segment.{init_segment, cxl_segment_page_alloc, cxl_segment_free}
use sosp_paper19_ae.Thread.{handle_of}
use sosp_paper19_ae.PageQueue.Chain.{Holds}
use sosp_paper19_ae.Segment.FreeQueue.{page_range, init_segment-Holds}
use sosp_paper19_ae.Segment.Claim.{Fits}

abbrev s : Shm
s = record { size = segments_area_start + 3 * segment_size; tls_offset = 0; thread_id = 2 }

abbrev region : Mem
region = store (λ _. 0) (sas_at 0) 1

-- Thread 2 has no page.
no_page : Holds region (free_page_at (tls_at 1)) []
unfolding store
no_page = (refl, refl)

cxl_segment_page_alloc-refill_example :
    ((cxl_segment_page_alloc 2 (handle_of s.size 1) region ≡ ok 0 region)
      × ((j : ℕ) → Fits (handle_of s.size 1) j → sas_thread_id region (sas_at j) ≢ 0))
    ⊎ ((k : ℕ) × Fits (handle_of s.size 1) k
        × (sas_thread_id region (sas_at k) ≡ 0)
        × ((j : ℕ) → j < k → sas_thread_id region (sas_at j) ≢ 0)
        × ((m' : Mem) × (cxl_segment_page_alloc 2 (handle_of s.size 1) region ≡ ok (page_at k 1) m')
            × (sas_thread_id m' (sas_at k) ≡ 2)
            × (segment_used m' (segment_at k) ≡ 1)
            × Gives region m' (free_page_at (tls_at 1)) (page_at k 1) (page_range 1022 k 2 ++ [])))
cxl_segment_page_alloc-refill_example =
    cxl_segment_page_alloc-refill s.size 1 (omega arith) (omega arith) region no_page 0

-- Segment 2 belongs to thread 1, and its pages are in the free queue.
abbrev own_segment : Mem
own_segment = set_sas_thread_id (sas_at 2) 1 (init_segment (handle_of 0 0) 2 (λ _. 0))

own_segment-other :
    (a : ℕ) → a ≢ sas_at 2 → own_segment a ≡ init_segment (handle_of 0 0) 2 (λ _. 0) a
unfolding set_sas_thread_id store
own_segment-other a ne = ground arith

own_segment-Holds : Holds own_segment (free_page_at (tls_at 0)) (page_range 1023 2 1 ++ [])
own_segment-Holds =
    Holds-outside (init_segment (handle_of 0 0) 2 (λ _. 0)) own_segment (free_page_at (tls_at 0))
      (page_range 1023 2 1 ++ []) (own_segment-other (free_page_at (tls_at 0)) (omega arith))
      (own_segment-other (last_at (free_page_at (tls_at 0))) (omega arith))
      (λ x is. (
        own_segment-other (next_at x) (omega (arith, is.high)),
        own_segment-other (prev_at x) (omega (arith, is.high)),
      ))
      (init_segment-Holds 0 0 2 (omega arith) (omega arith) (λ _. 0) [] (refl, refl)
        (λ j lo hi. tt))

own_segment-thread_id : sas_thread_id own_segment (sas_at 2) ≡ 1
unfolding sas_thread_id set_sas_thread_id store
own_segment-thread_id = ground arith

cxl_segment_free-Holds_example :
    (m' : Mem) × (cxl_segment_free (handle_of 0 0) (segment_at 2) own_segment ≡ ok tt m')
    × Holds m' (free_page_at (tls_at 0)) (erase_range 1023 2 1 (page_range 1023 2 1 ++ []))
    × All
        (λ x. (j : ℕ) → 1 ≤ j → j < pages_per_segment → x ≢ page_at 2 j)
        (erase_range 1023 2 1 (page_range 1023 2 1 ++ []))
    × (sas_thread_id m' (sas_at 2) ≡ 0)
    × ((a : ℕ)
        → a < segments_area_start
        → a ≢ sas_at 2
        → a ≢ free_page_at (tls_at 0)
        → a ≢ last_at (free_page_at (tls_at 0))
        → m' a ≡ own_segment a)
    × ((j : ℕ) → j < pages_per_segment → m' (page_at 2 j) ≡ 0)
cxl_segment_free-Holds_example =
    cxl_segment_free-Holds 0 0 2 (omega arith) (omega arith) own_segment (page_range 1023 2 1 ++ [])
      own_segment-Holds (λ j lo hi. elem-page_range 1023 2 1 j [] lo (omega arith))
      (page_range-out 1023 2 1 [] (omega arith) tt) own_segment-thread_id
