-- ===== src/Page/Generic.antt =====
-- `cxl_malloc_generic` of src/page.cpp for a bin that holds no page.
use sosp_paper19_ae.Base.{
  ℕ, suc, ◌+◌, ◌*◌, ◌^◌, ◌≤◌, ◌<◌, ◌≡◌, refl, ap, ◌∙◌, ◌≢◌, ◌⊎◌, inl, inr, List, arith, ne→==, ◌∷◌,
}
use sosp_paper19_ae.Memory.{Mem, memset, ok, fault}
use sosp_paper19_ae.Layout.{
  cxl_bin_size, max_thread, redo_cacheline_cnt, pages_per_segment, page_size, free_page_at,
  pages_at, queue_block_size_at, redo_at, tls_at, last_at, next_at, prev_at,
}
use sosp_paper19_ae.Layout.Pointers.{segment_at, page_at}
use sosp_paper19_ae.Handle.{Shm}
use sosp_paper19_ae.Thread.{handle_of}
use sosp_paper19_ae.PageQueue.Chain.{Holds}
use sosp_paper19_ae.PageQueue.Frame.{Holds-outside}
use sosp_paper19_ae.Segment.{cxl_segment_page_alloc, take_page}
use sosp_paper19_ae.Segment.Take.{Gives, take-Gives, page_alloc-take, take-low}
use sosp_paper19_ae.Page.{
  cxl_page_fresh, cxl_page_init, cxl_malloc_generic, cxl_page_queue_find_free_ex, find_free,
  header_size, is_special,
}
use sosp_paper19_ae.Page.Fresh.{Made, fresh-Made, fresh, fresh-run, fresh-before}

module _ (size i b : ℕ) (few : i < max_thread) (bin : b < cxl_bin_size) (m : Mem) where
  abbrev s : Shm
  s = handle_of size i

  abbrev pq : ℕ
  pq = pages_at (tls_at i) b

  abbrev queue : ℕ
  queue = free_page_at (tls_at i)

  -- The logs are cleared first.
  abbrev pub unlogged : Mem
  unlogged = memset m (redo_at (tls_at i) 0) (64 * redo_cacheline_cnt)

  pub unlogged-other : (a : ℕ) → (a < tls_at i) ⊎ (tls_at i + 512 ≤ a) → unlogged a ≡ m a
  unfolding memset
  unlogged-other a (inl lt) = ground arith
  unlogged-other a (inr le) = ground arith

  pub unlogged-Holds : (xs : List ℕ) → Holds m queue xs → Holds unlogged queue xs
  unlogged-Holds xs h =
      Holds-outside m unlogged queue xs (unlogged-other queue (inr (omega arith)))
        (unlogged-other (last_at queue) (inr (omega arith)))
        (λ x is. (
          unlogged-other (next_at x) (inr (omega arith)),
          unlogged-other (prev_at x) (inr (omega arith)),
        ))
        h

  unlogged-pq : (a : ℕ) → pq ≤ a → unlogged a ≡ m a
  unlogged-pq a le = unlogged-other a (inr (omega arith))

  module _ (fuel : ℕ) (empty : m pq ≡ 0) where
    generic-fresh :
        {p : ℕ} {m' : Mem}
        → cxl_page_fresh s pq unlogged ≡ ok p m'
        → p ≢ 0
        → cxl_malloc_generic (suc fuel) s pq m ≡ ok (p, m' p) m'
    unfolding cxl_malloc_generic cxl_page_queue_find_free_ex find_free
    generic-fresh {p} made ne = rw (unlogged-pq pq (omega arith) ∙ empty, made, ne→== p 0 ne) refl

    pub generic-fault :
        cxl_page_fresh s pq unlogged ≡ fault → cxl_malloc_generic (suc fuel) s pq m ≡ fault
    unfolding cxl_malloc_generic cxl_page_queue_find_free_ex find_free
    generic-fault made = rw (unlogged-pq pq (omega arith) ∙ empty, made) refl

    pub fresh-fault :
        cxl_segment_page_alloc 2 s unlogged ≡ ok 0 unlogged → cxl_page_fresh s pq unlogged ≡ fault
    unfolding cxl_page_fresh cxl_page_init
    fresh-fault nothing = rw nothing refl

    module _ (bsz k j : ℕ) (j_pos : 0 < j) (j_lt : j < pages_per_segment) (m1 : Mem) (ps : List ℕ)
        (size_of : m (queue_block_size_at pq) ≡ bsz) (fits : header_size (is_special s pq) ≤ bsz)
        (pos : 0 < bsz) (le : bsz ≤ page_size) (unused : m (page_at k j) ≡ 0) where
      abbrev p : ℕ
      p = page_at k j

      abbrev area : ℕ
      area = segment_at k + j * page_size

      pub generic-given :
          cxl_segment_page_alloc 2 s unlogged ≡ ok p m1
          → Gives unlogged m1 queue p ps
          → (m' : Mem) × (cxl_malloc_generic (suc fuel) s pq m ≡ ok (p, area) m')
            × ((a : ℕ) → a < p → a ≢ pq → a ≢ last_at pq → m' a ≡ m1 a)
            × Made unlogged m' queue pq p area bsz ps
      generic-given alloc g =
          let no_first = unlogged-pq pq (omega arith) ∙ empty in
          let here = fresh size i b k j bsz few bin j_pos j_lt unlogged m1 ps fits pos le g in
          let made =
            fresh-Made size i b k j bsz few bin j_pos j_lt unlogged m1 ps fits pos le g no_first
              (unlogged-pq p (omega arith) ∙ unused) in
          (
            here,
            generic-fresh
                  (fresh-run size i b k j bsz few bin j_pos j_lt unlogged m1 ps fits pos le g
                    no_first (unlogged-pq (queue_block_size_at pq) (omega arith) ∙ size_of) alloc)
                  (omega arith)
                ∙ ap (λ f. ok (p, f) here) made.free,
            fresh-before size i b k j bsz few bin j_pos j_lt unlogged m1 ps fits pos le g no_first,
            made,
          )

  -- When a bin has no page and the free queue of its thread has, `cxl_malloc_generic` makes the first
  -- of these a page of the bin, and returns it and its first block. The free queue holds the others.
  pub cxl_malloc_generic-take :
      (fuel bsz k j : ℕ) (ps : List ℕ)
      → 0 < j
      → j < pages_per_segment
      → m pq ≡ 0
      → Holds m queue (page_at k j ∷ ps)
      → m (queue_block_size_at pq) ≡ bsz
      → header_size (is_special s pq) ≤ bsz
      → 0 < bsz
      → bsz ≤ page_size
      → m (page_at k j) ≡ 0
      → (m' : Mem) × (cxl_malloc_generic (suc fuel) s pq m
          ≡ ok (page_at k j, segment_at k + j * page_size) m')
        × ((a : ℕ) → a < 2 ^ 17 → m' a ≡ m a)
        × Made unlogged m' queue pq (page_at k j) (segment_at k + j * page_size) bsz ps
  cxl_malloc_generic-take fuel bsz k j ps j_pos j_lt empty some_left size_of fits pos le unused =
      let mu = unlogged in
      let h = unlogged-Holds (page_at k j ∷ ps) some_left in
      let (m', run, before, made) =
        generic-given fuel empty bsz k j j_pos j_lt (take_page s (page_at k j) mu) ps size_of fits
          pos le unused (page_alloc-take size i few mu (page_at k j) ps h 1)
          (take-Gives size i few mu (page_at k j) ps h) in
      (
        m',
        run,
        λ a low.
            before a (omega arith) (omega arith) (omega arith)
            ∙ take-low size i few mu (page_at k j) ps h a low
            ∙ unlogged-other a (inl (omega arith)),
        made,
      )
