-- ===== src/Page/RoundTrip.antt =====
-- `cxl_malloc_generic` and `cxl_page_free` of src/page.cpp: a new page is given back.
use sosp_paper19_ae.Base.{
  refl, ℕ, zero, suc, ◌+◌, ◌*◌, ◌≤◌, ◌<◌, ◌≡◌, ◌≢◌, ◌⊎◌, inl, inr, [], ◌∷◌, ◌++◌, arith, All, ◌∉◌,
}
use sosp_paper19_ae.Memory.{Mem, ok, fault}
use sosp_paper19_ae.Layout.{
  cxl_bin_size, max_thread, max_segment_num, page_size, free_page_at, pages_at, queue_block_size_at,
  tls_at, sas_at, segments_area_start, segment_size, pages_per_segment,
}
use sosp_paper19_ae.Layout.Pointers.{segment_at, page_at, segment_of-page_at}
use sosp_paper19_ae.Handle.{Shm, sas_thread_id}
use sosp_paper19_ae.Thread.{handle_of}
use sosp_paper19_ae.PageQueue.Chain.{Holds}
use sosp_paper19_ae.Segment.Claim.{Fits}
use sosp_paper19_ae.Segment.FreeQueue.{page_range}
use sosp_paper19_ae.Segment.Remove.{elem-page_range, erase_range-all, page_range-out}
use sosp_paper19_ae.Page.{cxl_malloc_generic, cxl_page_free, header_size, is_special}
use sosp_paper19_ae.Page.Refill.{cxl_malloc_generic-refill}
use sosp_paper19_ae.Page.Free.{cxl_page_free-last}

-- The other pages are not page 1.
page_range-apart : (n k i : ℕ) → 2 ≤ i → All (λ w. w ∉ (page_at k 1 ∷ [])) (page_range n k i ++ [])
page_range-apart zero k i le = tt
page_range-apart (suc n) k i le =
    ((λ e. omega (arith, e), tt), page_range-apart n k (i + 1) (omega arith))

module _ (size i b : ℕ) (few : i < max_thread) (bin : b < cxl_bin_size)
    (bounded : size ≤ segments_area_start + max_segment_num * segment_size) (m : Mem) where
  abbrev s : Shm
  s = handle_of size i

  abbrev pq : ℕ
  pq = pages_at (tls_at i) b

  abbrev queue : ℕ
  queue = free_page_at (tls_at i)

  -- A thread without free pages whose bin has no page, in a region where a segment that fits is free,
  -- gets page 1 of such a segment by `cxl_malloc_generic`. When it gives the page back by
  -- `cxl_page_free`, the segment has no owner again, the bin and the free queue are empty, and no page
  -- of the segment has a free block. If no segment that fits is free, `cxl_malloc_generic` faults. The
  -- block size must be one that `cxl_page_init` can lay out, the pages of free segments must have no
  -- free block, and the region has room for at most 4096 segments.
  pub cxl_malloc_generic-free :
      (fuel bsz : ℕ)
      → m pq ≡ 0
      → Holds m queue []
      → m (queue_block_size_at pq) ≡ bsz
      → header_size (is_special s pq) ≤ bsz
      → 0 < bsz
      → bsz ≤ page_size
      → ((k : ℕ) → k < max_segment_num → sas_thread_id m (sas_at k) ≡ 0 → m (page_at k 1) ≡ 0)
      → ((cxl_malloc_generic (suc fuel) s pq m ≡ fault)
          × ((j : ℕ) → Fits s j → sas_thread_id m (sas_at j) ≢ 0))
        ⊎ ((k : ℕ) × Fits s k
            × (sas_thread_id m (sas_at k) ≡ 0)
            × ((m1 m2 : Mem) × (cxl_malloc_generic (suc fuel) s pq m
                  ≡ ok (page_at k 1, segment_at k + page_size) m1)
                × (sas_thread_id m1 (sas_at k) ≡ i + 1)
                × (cxl_page_free s (page_at k 1) pq m1 ≡ ok tt m2)
                × Holds m2 queue []
                × Holds m2 pq []
                × (sas_thread_id m2 (sas_at k) ≡ 0)
                × ((j : ℕ) → j < pages_per_segment → m2 (page_at k j) ≡ 0)))
  cxl_malloc_generic-free fuel bsz empty none_left size_of fits pos le unused =
      elim (cxl_malloc_generic-refill size i b few bin bounded m fuel bsz empty none_left size_of
        fits pos le unused) [
          | inl r ↦ inl r
          | inr (k, f, free, taken, (m1, run, owner, used, made)) ↦
              let at = segment_of-page_at k 1 (omega arith) in
              let (m2, run', held, bin_empty, no_owner, blocks) =
                cxl_page_free-last size i b (page_at k 1) [] [] (page_range 1022 k 2 ++ []) few bin
                  m1 made.only made.holds (page_range-apart 1022 k 2 (omega arith)) k (omega arith)
                  at (rw at used) (λ j lo hi. elem-page_range 1023 k 1 j [] lo (omega arith))
                  (page_range-out 1023 k 1 [] (omega arith) tt) owner refl in
              inr (
                k,
                f,
                free,
                (
                  m1,
                  m2,
                  run,
                  owner,
                  run',
                  rw (erase_range-all 1023 k 1) at held,
                  bin_empty,
                  no_owner,
                  blocks,
                ),
              )
        ]
