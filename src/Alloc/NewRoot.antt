-- ===== src/Alloc/NewRoot.antt =====
-- `thread_base_ref_alloc` of src/cxl_shm.cpp on a thread that has no page for root references.
use mathlib.Core.Path.{subst}
use sosp_paper19_ae.Base.{
  ℕ, zero, suc, ◌+◌, ◌*◌, ◌≤◌, ◌<◌, ◌≡◌, ◌≢◌, ◌⊎◌, inl, inr, [], ◌++◌, arith, All, sym, ap, ◌∙◌,
}
use sosp_paper19_ae.Memory.{Mem, ok, fault, lo32}
use sosp_paper19_ae.Layout.{
  segments_area_start, segment_size, max_segment_num, page_size, free_page_at, queue_block_size_at,
  max_thread, cxl_page_size, pages_at, tls_at, root_ref_size, sas_at,
}
use sosp_paper19_ae.Layout.Pointers.{segment_at, page_at}
use sosp_paper19_ae.Handle.{Shm, sas_thread_id}
use sosp_paper19_ae.Thread.{handle_of}
use sosp_paper19_ae.PageQueue.Chain.{Holds}
use sosp_paper19_ae.Segment.Claim.{Fits}
use sosp_paper19_ae.Segment.FreeQueue.{page_range}
use sosp_paper19_ae.Page.Blocks.{blocks, Links}
use sosp_paper19_ae.Page.Fresh.{Made}
use sosp_paper19_ae.Page.Refill.{cxl_malloc_generic-refill}
use sosp_paper19_ae.Page.Generic.{unlogged}
use sosp_paper19_ae.Alloc.{thread_base_ref_alloc, block_to_tbr}
use sosp_paper19_ae.Alloc.Root.{IsRoot, IsKept, block_to_tbr-IsRoot, alloc-miss, alloc-fault}

-- The blocks of a page but its first are apart from the first.
blocks-IsKept :
    (n size b c p : ℕ)
    → p + cxl_page_size ≤ c
    → c + root_ref_size ≤ b
    → root_ref_size ≤ size
    → All (IsKept p c) (blocks n size b)
blocks-IsKept zero size b c p above behind fits = tt
blocks-IsKept (suc n) size b c p above behind fits =
    (ground arith, blocks-IsKept n size (b + size) c p above (omega arith) fits)

-- The first block of a new page becomes a root reference.
new-IsRoot :
    (n c p : ℕ) (m : Mem)
    → m p ≡ c
    → p + cxl_page_size ≤ c
    → Links m c (blocks (suc n) root_ref_size c) 0
    → IsRoot m (block_to_tbr c p m) p c (blocks n root_ref_size (c + root_ref_size))
new-IsRoot n c p m free above h =
    block_to_tbr-IsRoot m p c (blocks n root_ref_size (c + root_ref_size)) (inr above)
      (subst (λ f. Links m f (blocks (suc n) root_ref_size c) 0) (sym free) h)
      (blocks-IsKept n root_ref_size (c + root_ref_size) c p above (omega arith) (omega arith))

module _ (size i : ℕ) (few : i < max_thread)
    (bounded : size ≤ segments_area_start + max_segment_num * segment_size) (m : Mem) where
  abbrev s : Shm
  s = handle_of size i

  abbrev pq : ℕ
  pq = pages_at (tls_at i) 0

  abbrev queue : ℕ
  queue = free_page_at (tls_at i)

  -- On a thread without pages, `thread_base_ref_alloc` faults if every segment that fits belongs to a
  -- thread, and else returns the first block of page 1 of the first free one as a root reference.
  pub thread_base_ref_alloc-refill :
      (fuel : ℕ)
      → m pq ≡ 0
      → Holds m queue []
      → m (queue_block_size_at pq) ≡ root_ref_size
      → ((k : ℕ) → k < max_segment_num → sas_thread_id m (sas_at k) ≡ 0 → m (page_at k 1) ≡ 0)
      → ((thread_base_ref_alloc (suc fuel) s m ≡ fault)
          × ((j : ℕ) → Fits s j → sas_thread_id m (sas_at j) ≢ 0))
        ⊎ ((k : ℕ) × Fits s k
            × (sas_thread_id m (sas_at k) ≡ 0)
            × ((j : ℕ) → j < k → sas_thread_id m (sas_at j) ≢ 0)
            × ((m1 m' : Mem) × (thread_base_ref_alloc (suc fuel) s m
                  ≡ ok (segment_at k + page_size) m')
                × (sas_thread_id m' (sas_at k) ≡ i + 1)
                × Made
                    (unlogged size i 0 few (omega arith) m)
                    m1
                    queue
                    pq
                    (page_at k 1)
                    (segment_at k + page_size)
                    root_ref_size
                    (page_range 1022 k 2 ++ [])
                × IsRoot m1 m'
                    (page_at k 1)
                    (segment_at k + page_size)
                    (blocks 4095 root_ref_size (segment_at k + page_size + root_ref_size))))
  unfolding sas_thread_id
  thread_base_ref_alloc-refill fuel empty none_left size_of unused =
      elim (cxl_malloc_generic-refill size i 0 few (omega arith) bounded m fuel root_ref_size empty
        none_left size_of (ground arith) (omega arith) (omega arith) unused) [
          | inl r ↦ inl (alloc-fault size i m (page_at 0 0) 0 (suc fuel) empty r.0, r.1)
          | inr (k, f, free, taken, (m1, run, owner, used, made)) ↦
              let area : ℕ = segment_at k + page_size in
              let root = new-IsRoot 4095 area (page_at k 1) m1 made.free (omega arith) made.links in
              inr (
                k,
                f,
                free,
                taken,
                (
                  m1,
                  block_to_tbr area (page_at k 1) m1,
                  alloc-miss size i m (page_at k 1) area (suc fuel) m1 empty run (omega arith),
                  ap lo32
                        (root.kept (sas_at k) (omega arith, omega arith, omega arith, omega arith))
                      ∙ owner,
                  made,
                  root,
                ),
              )
        ]
