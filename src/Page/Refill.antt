-- ===== src/Page/Refill.antt =====
-- `cxl_malloc_generic` of src/page.cpp for an empty bin of a thread without free pages.
use sosp_paper19_ae.Base.{
  refl, ℕ, suc, ◌+◌, ◌*◌, ◌≤◌, ◌<◌, ◌≡◌, ◌∙◌, ◌≢◌, ◌⊎◌, inl, inr, [], ◌++◌, arith, sym, ap,
}
use sosp_paper19_ae.Memory.{Mem, ok, fault, lo32, hi32}
use sosp_paper19_ae.Layout.{
  cxl_bin_size, max_thread, max_segment_num, page_size, free_page_at, pages_at, queue_block_size_at,
  tls_at, sas_at, segments_area_start, segment_size,
}
use sosp_paper19_ae.Layout.Pointers.{segment_at, page_at}
use sosp_paper19_ae.Handle.{Shm, sas_thread_id, segment_used}
use sosp_paper19_ae.Thread.{handle_of}
use sosp_paper19_ae.PageQueue.Chain.{Holds}
use sosp_paper19_ae.Segment.Claim.{Fits}
use sosp_paper19_ae.Segment.FreeQueue.{page_range}
use sosp_paper19_ae.Segment.Refill.{cxl_segment_page_alloc-refill}
use sosp_paper19_ae.Page.{cxl_malloc_generic, header_size, is_special}
use sosp_paper19_ae.Page.Fresh.{Made}
use sosp_paper19_ae.Page.Generic.{
  unlogged, unlogged-other, unlogged-Holds, generic-given, generic-fault, fresh-fault,
}

module _ (size i b : ℕ) (few : i < max_thread) (bin : b < cxl_bin_size)
    (bounded : size ≤ segments_area_start + max_segment_num * segment_size) (m : Mem) where
  abbrev s : Shm
  s = handle_of size i

  abbrev pq : ℕ
  pq = pages_at (tls_at i) b

  abbrev queue : ℕ
  queue = free_page_at (tls_at i)

  unlogged-thread_id :
      (j : ℕ)
      → Fits s j
      → sas_thread_id (unlogged size i b few bin m) (sas_at j) ≡ sas_thread_id m (sas_at j)
  unfolding sas_thread_id
  unlogged-thread_id j fits =
      rw (unlogged-other size i b few bin m (sas_at j) (inl (omega arith))) refl

  -- When a bin has no page and its thread has none in the free queue, `cxl_malloc_generic` claims the
  -- first free segment that ends within the region, if there is one, becomes its owner, makes its
  -- page 1 a page of the bin's block size, and returns that page and its first block. If there is
  -- none it faults: the NULL that it gets for a page is used. All blocks of the page are free and none
  -- is in use, it is the only page of the bin's queue and the only one in use of the segment, and the
  -- other pages of the segment are in the free queue. Between the allocation states and the segments
  -- only the logs and the two queues change. The block size must be one that `cxl_page_init` can lay
  -- out, the pages of free segments must have no free block, and the region has room for at most 4096
  -- segments.
  pub cxl_malloc_generic-refill :
      (fuel bsz : ℕ)
      → m pq ≡ 0
      → Holds m queue []
      → m (queue_block_size_at pq) ≡ bsz
      → header_size (is_special s pq) ≤ bsz
      → 0 < bsz
      → bsz ≤ page_size
      → ((k : ℕ) → k < max_segment_num → sas_thread_id m (sas_at k) ≡ 0 → m (page_at k 1) ≡ 0)
      → ((cxl_malloc_generic (suc fuel) s pq m ≡ fault)
          × ((j : ℕ) → Fits s j → sas_thread_id m (sas_at j) ≢ 0))
        ⊎ ((k : ℕ) × Fits s k
            × (sas_thread_id m (sas_at k) ≡ 0)
            × ((j : ℕ) → j < k → sas_thread_id m (sas_at j) ≢ 0)
            × ((m' : Mem) × (cxl_malloc_generic (suc fuel) s pq m
                  ≡ ok (page_at k 1, segment_at k + page_size) m')
                × (sas_thread_id m' (sas_at k) ≡ i + 1)
                × (segment_used m' (segment_at k) ≡ 1)
                × Made
                    (unlogged size i b few bin m)
                    m'
                    queue
                    pq
                    (page_at k 1)
                    (segment_at k + page_size)
                    bsz
                    (page_range 1022 k 2 ++ [])))
  unfolding sas_thread_id segment_used
  cxl_malloc_generic-refill fuel bsz empty none_left size_of fits pos le unused =
      elim (cxl_segment_page_alloc-refill size i few bounded (unlogged size i b few bin m)
        (unlogged-Holds size i b few bin m [] none_left) 0) [
          | inl r ↦ inl (
            generic-fault size i b few bin m fuel empty
                (fresh-fault size i b few bin m fuel empty r.0),
            λ j f. rw (sym (unlogged-thread_id j f)) (r.1 j f),
          )
          | inr (k, f, free, taken, (m1, run, owner, used, g)) ↦
              let (m', run', before, made) =
                generic-given size i b few bin m fuel empty bsz k 1 (omega arith) (omega arith) m1
                  (page_range 1022 k 2 ++ []) size_of fits pos le
                  (unused k (omega arith) (sym (unlogged-thread_id k f) ∙ free)) run g in
              inr (
                k,
                f,
                sym (unlogged-thread_id k f) ∙ free,
                (λ j lt. rw (sym (unlogged-thread_id j (omega arith))) (taken j lt)),
                (
                  m',
                  run',
                  ap lo32 (before (sas_at k) (omega arith) (omega arith) (omega arith)) ∙ owner,
                  ap hi32 (before (segment_at k) (omega arith) (omega arith) (omega arith)) ∙ used,
                  made,
                ),
              )
        ]
