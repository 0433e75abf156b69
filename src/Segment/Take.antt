-- ===== src/Segment/Take.antt =====
-- `cxl_segment_page_alloc` of src/segment.cpp: a page out of the free queue.
use sosp_paper19_ae.Layout.Pointers.{segment_at, page_at, segment_of-page_at}
use sosp_paper19_ae.Base.{
  ℕ, suc, ◌%◌, ◌^◌, ◌≤◌, ◌<◌, ◌≡◌, refl, ◌∙◌, ◌≢◌, ◌⊎◌, inl, inr, List, [], ◌∷◌, arith, ◌∉◌, ne→==,
  ap, eq→==, ◌+◌,
}
use sosp_paper19_ae.Memory.{Mem, store, ok}
use sosp_paper19_ae.Layout.{
  free_page_at, max_thread, tls_at, last_at, next_at, prev_at, segments_area_start, segment_size,
  cxl_ptr_segment, pages_per_segment,
}
use sosp_paper19_ae.Handle.{Shm, set_segment_used, segment_used}
use sosp_paper19_ae.Thread.{handle_of}
use sosp_paper19_ae.PageQueue.{cxl_page_queue_remove}
use sosp_paper19_ae.PageQueue.Chain.{IsPage, Holds}
use sosp_paper19_ae.PageQueue.Erase.{cxl_page_queue_remove-Holds}
use sosp_paper19_ae.PageQueue.Frame.{
  IsNoLink, low-IsNoLink, cxl_page_queue_remove-other, Holds-frame, Holds-first,
}
use sosp_paper19_ae.Segment.{take_page, cxl_segment_page_alloc}

-- A word that is not in the header of a segment, in an allocation state, a link of a page, or in
-- the queue.
pub record IsAside (queue a : ℕ) : Type 0 where
  pub high : 2 ^ 17 ≤ a
  pub inside : (a < segments_area_start) ⊎ (0 < a % segment_size)
  pub no_link : IsNoLink a
  pub no_first : a ≢ queue
  pub no_last : a ≢ last_at queue

-- A page has been taken: the queue holds the rest, and words aside are kept.
pub record Gives (m m' : Mem) (queue p : ℕ) (ps : List ℕ) : Type 0 where
  pub page : IsPage p
  pub absent : p ∉ ps
  pub holds : Holds m' queue ps
  pub kept : (a : ℕ) → IsAside queue a → m' a ≡ m a

module _ (size i : ℕ) (few : i < max_thread) where
  abbrev s : Shm
  s = handle_of size i

  abbrev queue : ℕ
  queue = free_page_at (tls_at i)

  module _ (m : Mem) (p : ℕ) (ps : List ℕ) (h : Holds m queue (p ∷ ps)) where
    abbrev first :
        (m queue ≡ p)
        × IsPage p
        × (m (prev_at p) ≡ 0)
        × ((m (next_at p) ≡ 0) ⊎ IsPage (m (next_at p)))
        × (p ∉ ps)
    first = Holds-first m queue p ps h

    abbrev removed : Mem
    removed = cxl_page_queue_remove queue p m

    set_used-other :
        (v a : ℕ)
        → a ≢ cxl_ptr_segment p
        → set_segment_used (cxl_ptr_segment p) v removed a ≡ removed a
    unfolding set_segment_used store
    set_used-other v a ne = rw (ne→== a (cxl_ptr_segment p) ne) refl

    header_ne : (a : ℕ) → (a < segments_area_start) ⊎ (0 < a % segment_size) → a ≢ cxl_ptr_segment p
    unfolding cxl_ptr_segment
    header_ne a (inl lt) = ground (arith, first.1)
    header_ne a (inr pos) = ground (arith, first.1)

    pub take-Gives : Gives m (take_page s p m) queue p ps
    unfolding take_page
    take-Gives = record {
      page = first.1;
      absent = first.4;
      holds =
          Holds-frame removed (take_page s p m) queue p ps
            (set_used-other _ queue (header_ne queue (inl (omega arith))))
            (set_used-other _ (last_at queue) (header_ne (last_at queue) (inl (omega arith))))
            (λ x is ne. (
              set_used-other _ (next_at x) (header_ne (next_at x) (inr (omega arith))),
              set_used-other _ (prev_at x) (header_ne (prev_at x) (inr (omega arith))),
            ))
            first.4 (cxl_page_queue_remove-Holds m queue p (omega arith) [] ps h);
      kept = λ a k.
          set_used-other _ a (header_ne a k.inside)
          ∙ cxl_page_queue_remove-other m queue p a (inl first.2) first.3 first.1 (omega arith)
              k.no_link k.no_first k.no_last;
    }

    -- Words before the thread-local states, such as allocation states, are kept.
    pub take-low : (a : ℕ) → a < 2 ^ 17 → take_page s p m a ≡ m a
    unfolding take_page
    take-low a low =
        set_used-other _ a (header_ne a (inl (omega arith)))
        ∙ cxl_page_queue_remove-other m queue p a (inl first.2) first.3 first.1 (omega arith)
            (low-IsNoLink a (omega arith)) (omega arith) (omega arith)

    -- One page more of the segment is in use.
    pub take-used :
        (k j : ℕ)
        → j < pages_per_segment
        → p ≡ page_at k j
        → segment_used m (segment_at k) + 1 < 2 ^ 32
        → segment_used (take_page s p m) (segment_at k) ≡ segment_used m (segment_at k) + 1
    unfolding take_page set_segment_used segment_used store
    take-used k j lt at room =
        let e : cxl_ptr_segment p ≡ segment_at k =
          ap cxl_ptr_segment at ∙ segment_of-page_at k j lt in
        let same =
          cxl_page_queue_remove-other m queue p (segment_at k) (inl first.2) first.3 first.1
            (omega arith)
            (λ y is. (omega (arith, is.low, is.within), omega (arith, is.low, is.within)))
            (omega arith) (omega arith) in
        rw (e, eq→== (segment_at k) (segment_at k) refl, same) (omega arith)

    -- With a page in the free queue of the thread, `cxl_segment_page_alloc` takes the first.
    pub page_alloc-take :
        (fuel : ℕ) → cxl_segment_page_alloc (suc fuel) s m ≡ ok p (take_page s p m)
    unfolding cxl_segment_page_alloc
    page_alloc-take fuel = rw (first.0, ne→== p 0 (omega (arith, first.1))) refl
