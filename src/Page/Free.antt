-- ===== src/Page/Free.antt =====
-- `cxl_page_free` of src/page.cpp: a page leaves its bin for the free queue of the thread.
use sosp_paper19_ae.Segment.Free.{cxl_segment_free-Holds}
use sosp_paper19_ae.Segment.Remove.{elem, erase_range}
use sosp_paper19_ae.Segment.{cxl_segment_free}
use sosp_paper19_ae.Layout.Pointers.{segment_at, page_at}
use sosp_paper19_ae.Page.{cxl_page_free}
use sosp_paper19_ae.PageQueue.Push.{cxl_page_queue_push-Holds}
use sosp_paper19_ae.PageQueue.Apart.{push-apart, first-IsLink}
use sosp_paper19_ae.PageQueue.Frame.{
  free-IsNoLink, cxl_page_queue_push-other, cxl_page_queue_remove-other, Holds-outside,
  low-IsNoLink,
}
use sosp_paper19_ae.Handle.{segment_used, set_segment_used, sas_thread_id}
use sosp_paper19_ae.Memory.{store, u32, hi32, ok, lo32}
use sosp_paper19_ae.Base.{
  [], apart_sym, append-All, sym, refl, ne→==, ◌^◌, ◌-◌, ◌∙◌, ap, eq→==, true,
}
use sosp_paper19_ae.Base.{
  ℕ, ◌+◌, ◌≤◌, ◌<◌, ◌≡◌, ◌≢◌, ◌⊎◌, inl, inr, List, ◌∷◌, ◌++◌, arith, All, All-map, All-both,
  All-append, AreDistinct-middle, ◌∉◌,
}
use sosp_paper19_ae.Memory.{Mem, memset}
use sosp_paper19_ae.Layout.{
  max_thread, cxl_bin_size, cxl_page_size, segments_area_start, free_page_at, pages_at, tls_at,
  last_at, next_at, prev_at, cxl_ptr_segment, max_segment_num, sas_at, pages_per_segment,
}
use sosp_paper19_ae.Handle.{Shm}
use sosp_paper19_ae.Thread.{handle_of}
use sosp_paper19_ae.PageQueue.{cxl_page_queue_push, cxl_page_queue_remove}
use sosp_paper19_ae.PageQueue.Chain.{IsPage, Holds}
use sosp_paper19_ae.PageQueue.Erase.{Holds-middle, cxl_page_queue_remove-Holds}
use sosp_paper19_ae.PageQueue.Frame.{IsNoLink, pages_apart}
use sosp_paper19_ae.PageQueue.Apart.{IsSame, Holds-IsSame, Chain-AreDistinct, remove-apart}

set_segment_used-lower :
    (m : Mem) (a : ℕ)
    → 1 ≤ segment_used m a
    → segment_used (set_segment_used a (u32 (segment_used m a + 2 ^ 32 - 1)) m) a + 1
      ≡ segment_used m a
unfolding segment_used set_segment_used store
set_segment_used-lower m a used = rw (eq→== a a refl) (omega arith)

module _ (size i b p : ℕ) (ys zs ps : List ℕ) (few : i < max_thread) (bin : b < cxl_bin_size)
    (m : Mem) where
  abbrev s : Shm
  s = handle_of size i

  abbrev pq : ℕ
  pq = pages_at (tls_at i) b

  abbrev queue : ℕ
  queue = free_page_at (tls_at i)

  abbrev segment : ℕ
  segment = cxl_ptr_segment p

  segment-IsNoLink : IsNoLink segment
  unfolding cxl_ptr_segment
  segment-IsNoLink y is = (omega (arith, is.low, is.within), omega (arith, is.low, is.within))

  module _ (h : Holds m pq (ys ++ p ∷ zs)) (h' : Holds m queue ps)
      (apart : All (λ w. w ∉ (ys ++ p ∷ zs)) ps) where
    abbrev middle :
        IsPage p
        × ((m (prev_at p) ≡ 0) ⊎ IsPage (m (prev_at p)))
        × ((m (next_at p) ≡ 0) ⊎ IsPage (m (next_at p)))
        × (m (prev_at p) ≢ p)
        × (m (next_at p) ≢ p)
    middle = Holds-middle m pq p (omega arith) ys zs h

    segment_lt : (segments_area_start ≤ segment) × (segment < p)
    unfolding cxl_ptr_segment
    segment_lt = omega (arith, middle.0.high, middle.0.low)

    abbrev removed : Mem
    removed = cxl_page_queue_remove pq p m

    abbrev cleared : Mem
    cleared = memset removed p cxl_page_size

    abbrev pushed : Mem
    pushed = cxl_page_queue_push queue p cleared

    cleared-other : (a : ℕ) → (a < p) ⊎ (p + cxl_page_size ≤ a) → cleared a ≡ removed a
    unfolding memset
    cleared-other a out = ground (arith, out)

    cleared-IsSame : (w : ℕ) → IsPage w → w ≢ p → IsSame removed cleared w
    cleared-IsSame w is ne = (
      cleared-other (next_at w) (pages_apart w p 24 is middle.0 ne (omega arith)),
      cleared-other (prev_at w) (pages_apart w p 32 is middle.0 ne (omega arith)),
    )

    cleared-Holds :
        (q : ℕ) (ws : List ℕ)
        → q + 16 ≤ segments_area_start
        → All (λ w. w ≢ p) ws
        → Holds removed q ws
        → Holds cleared q ws
    cleared-Holds q ws low ne held =
        let high = middle.0.high in
        Holds-IsSame removed cleared q ws (cleared-other q (inl (omega arith)))
          (cleared-other (last_at q) (inl (omega arith)))
          (All-map (λ w. (w ≢ p) × IsPage w) (IsSame removed cleared) ws
            (λ w k. cleared-IsSame w k.1 k.0)
            (All-both (λ w. w ≢ p) IsPage ws ne
              (Chain-AreDistinct removed 0 (removed q) ws (removed (last_at q)) held).1))
          held

    not_free : All (λ w. w ≢ p) ps
    not_free =
        All-map (λ w. w ∉ (ys ++ p ∷ zs)) (λ w. w ≢ p) ps
          (λ w k. (All-append (λ y. w ≢ y) ys (p ∷ zs) k).1.0) apart

    others_ne : All (λ w. w ≢ p) (ys ++ zs)
    others_ne =
        AreDistinct-middle p ys zs
          (Chain-AreDistinct m 0 (m pq) (ys ++ p ∷ zs) (m (last_at pq)) h).0

    free-Holds : Holds cleared queue ps
    free-Holds = cleared-Holds queue ps (omega arith) not_free (
        remove-apart m pq queue p ys zs ps (omega arith) (omega arith) (inr (omega arith)) h h'
          apart)

    bin-Holds : Holds cleared pq (ys ++ zs)
    bin-Holds =
        cleared-Holds pq (ys ++ zs) (omega arith) others_ne
          (cxl_page_queue_remove-Holds m pq p (omega arith) ys zs h)

    page_free-IsNoLink : IsNoLink p
    page_free-IsNoLink = free-IsNoLink p middle.0

    pushed-Holds : Holds pushed queue (p ∷ ps)
    pushed-Holds =
        cxl_page_queue_push-Holds cleared queue p (omega arith) middle.0 ps free-Holds
          (All-map (λ w. w ≢ p) (λ w. p ≢ w) ps (λ w ne e. ne (sym e)) not_free)

    bin_apart : All (λ w. w ∉ (p ∷ ps)) (ys ++ zs)
    bin_apart =
        let (before, behind) =
          All-append (λ w. w ∉ ps) ys (p ∷ zs) (apart_sym (ys ++ p ∷ zs) ps apart) in
        All-both (λ w. w ≢ p) (λ w. w ∉ ps) (ys ++ zs) others_ne
          (append-All (λ w. w ∉ ps) ys zs before behind.1)

    kept-Holds : Holds pushed pq (ys ++ zs)
    kept-Holds =
        push-apart cleared queue pq p ps (ys ++ zs) (omega arith) (omega arith) (inl (omega arith))
          middle.0 free-Holds bin-Holds bin_apart

    pushed-segment : pushed segment ≡ m segment
    pushed-segment =
        cxl_page_queue_push-other cleared queue p segment (first-IsLink cleared queue ps free-Holds)
          middle.0 (omega arith) segment-IsNoLink (omega (arith, segment_lt))
          (omega (arith, segment_lt))
        ∙ cleared-other segment (inl segment_lt.1)
        ∙ cxl_page_queue_remove-other m pq p segment middle.1 middle.2 middle.0 (omega arith)
            segment-IsNoLink (omega (arith, segment_lt)) (omega (arith, segment_lt))

    abbrev counted : Mem
    counted = set_segment_used segment (u32 (segment_used pushed segment + 2 ^ 32 - 1)) pushed

    counted-other : (a : ℕ) → a ≢ segment → counted a ≡ pushed a
    unfolding set_segment_used store
    counted-other a ne = rw (ne→== a segment ne) refl

    pushed-used : segment_used pushed segment ≡ segment_used m segment
    unfolding segment_used
    pushed-used = ap hi32 pushed-segment

    counted-used :
        1 ≤ segment_used m segment → segment_used counted segment + 1 ≡ segment_used m segment
    counted-used used = set_segment_used-lower pushed segment (rw pushed-used used) ∙ pushed-used

    links_kept :
        (x : ℕ)
        → IsPage x
        → (counted (next_at x) ≡ pushed (next_at x)) × (counted (prev_at x) ≡ pushed (prev_at x))
    links_kept x is =
        let (next, prev) = segment-IsNoLink x is in
        (
          counted-other (next_at x) (λ e. next (sym e)),
          counted-other (prev_at x) (λ e. prev (sym e)),
        )

    pushed-free : pushed p ≡ cleared p
    pushed-free =
        cxl_page_queue_push-other cleared queue p p (first-IsLink cleared queue ps free-Holds)
          middle.0 (omega arith) page_free-IsNoLink (omega (arith, middle.0.high))
          (omega (arith, middle.0.high))

    cleared-free : cleared p ≡ 0
    unfolding memset
    cleared-free = ground arith

    run : 1 < segment_used m segment → cxl_page_free s p pq m ≡ ok tt counted
    unfolding cxl_page_free
    run used =
        rw (ne→== (segment_used counted segment) 0 (omega (arith, counted-used (omega arith)))) refl

    -- `cxl_page_free` of a page of a bin, when it is not the last page in use of its segment, ends; the
    -- page leaves the bin, which keeps its other pages in their order, and is the first of the free
    -- queue of the thread. It has no free block, and the segment has one page less in use. The bin
    -- and the free queue share no page at the start.
    pub cxl_page_free-Holds :
        1 < segment_used m segment
        → (m' : Mem) × (cxl_page_free s p pq m ≡ ok tt m')
          × Holds m' pq (ys ++ zs)
          × Holds m' queue (p ∷ ps)
          × (segment_used m' segment + 1 ≡ segment_used m segment)
          × (m' p ≡ 0)
    cxl_page_free-Holds used = (
      counted,
      run used,
      Holds-outside pushed counted pq (ys ++ zs) (counted-other pq (omega (arith, segment_lt)))
          (counted-other (last_at pq) (omega (arith, segment_lt))) links_kept kept-Holds,
      Holds-outside pushed counted queue (p ∷ ps) (counted-other queue (omega (arith, segment_lt)))
          (counted-other (last_at queue) (omega (arith, segment_lt))) links_kept pushed-Holds,
      counted-used (omega arith),
      counted-other p (omega (arith, segment_lt)) ∙ pushed-free ∙ cleared-free,
    )

    module _ (k : ℕ) (small : k < max_segment_num) (at : segment ≡ segment_at k)
        (last : segment_used m segment ≡ 1) where
      run-last : cxl_page_free s p pq m ≡ cxl_segment_free s (segment_at k) counted
      unfolding cxl_page_free
      run-last =
          let used : segment_used counted segment ≡ 0 = omega (arith, counted-used (omega arith)) in
          rw (eq→== (segment_used counted segment) 0 used)
            (ap (λ a. cxl_segment_free s a counted) at)

      owner-kept : counted (sas_at k) ≡ m (sas_at k)
      owner-kept =
          counted-other (sas_at k) (omega (arith, segment_lt))
          ∙ cxl_page_queue_push-other cleared queue p (sas_at k)
              (first-IsLink cleared queue ps free-Holds) middle.0 (omega arith)
              (low-IsNoLink (sas_at k) (omega arith)) (omega arith) (omega arith)
          ∙ cleared-other (sas_at k) (inl (omega (arith, segment_lt)))
          ∙ cxl_page_queue_remove-other m pq p (sas_at k) middle.1 middle.2 middle.0 (omega arith)
              (low-IsNoLink (sas_at k) (omega arith)) (omega arith) (omega arith)

      counted-Holds : Holds counted queue (p ∷ ps)
      counted-Holds =
          Holds-outside pushed counted queue (p ∷ ps)
            (counted-other queue (omega (arith, segment_lt)))
            (counted-other (last_at queue) (omega (arith, segment_lt))) links_kept pushed-Holds

      owned :
          sas_thread_id m (sas_at k) ≡ s.thread_id → sas_thread_id counted (sas_at k) ≡ s.thread_id
      unfolding sas_thread_id
      owned own = ap lo32 owner-kept ∙ own

      counted-pq : (a : ℕ) → (a ≡ pq) ⊎ (a ≡ last_at pq) → counted a ≡ pushed a
      counted-pq a at = counted-other a (ground (arith, at, segment_lt))

      -- `cxl_page_free` of the last page in use of a segment of the thread, whose other pages are in
      -- the free queue, ends and frees the segment too: no page of it is left in the free queue, it
      -- has no owner, and none of its pages has a free block. A bin that held only this page is empty.
      pub cxl_page_free-last :
          ((j : ℕ) → 1 ≤ j → j < pages_per_segment → elem (page_at k j) (p ∷ ps) ≡ true)
          → page_at k 0 ∉ (p ∷ ps)
          → sas_thread_id m (sas_at k) ≡ s.thread_id
          → ys ++ zs ≡ []
          → (m' : Mem) × (cxl_page_free s p pq m ≡ ok tt m')
            × Holds m' queue (erase_range 1023 k 1 (p ∷ ps))
            × Holds m' pq []
            × (sas_thread_id m' (sas_at k) ≡ 0)
            × ((j : ℕ) → j < pages_per_segment → m' (page_at k j) ≡ 0)
      cxl_page_free-last has out own only =
          let (m', run, held, out_of, owner, kept, free) =
            cxl_segment_free-Holds size i k few small counted (p ∷ ps) counted-Holds has out
              (owned own) in
          let empty : Holds pushed pq [] = rw only at kept-Holds in
          (
            m',
            run-last ∙ run,
            held,
            (
              kept pq (omega arith) (omega arith) (omega arith) (omega arith)
                  ∙ counted-pq pq (inl refl)
                  ∙ empty.0,
              kept (last_at pq) (omega arith) (omega arith) (omega arith) (omega arith)
                  ∙ counted-pq (last_at pq) (inr refl)
                  ∙ empty.1,
            ),
            owner,
            free,
          )
