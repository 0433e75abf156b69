-- ===== src/Segment/Free.antt =====
-- `cxl_segment_free` of src/segment.cpp: the pages of a segment leave the free queue.
use sosp_paper19_ae.PageQueue.Apart.{Chain-AreDistinct}
use sosp_paper19_ae.Handle.{Shm, sas_thread_id, set_sas_thread_id}
use sosp_paper19_ae.Thread.{handle_of}
use sosp_paper19_ae.Layout.{
  last_at, next_at, prev_at, cxl_segment_struct_size, free_page_at, tls_at, max_thread,
  max_segment_num, cxl_page_size, pages_per_segment, sas_at, segments_area_start,
}
use sosp_paper19_ae.PageQueue.Frame.{low-IsNoLink, Holds-outside}
use sosp_paper19_ae.Base.{
  ℕ, ◌+◌, ◌≤◌, ◌<◌, ◌≡◌, ◌≢◌, refl, sym, ap, ◌∙◌, List, arith, ne→==, eq→==, ℕ_discrete, true,
  All-map, All-both, All, ◌∉◌, ◌⊎◌, inl, ◌-◌, ◌/◌, dec_lt, inr,
}
use sosp_paper19_ae.Memory.{Mem, memset, lo32, ok, store}
use sosp_paper19_ae.Layout.Pointers.{segment_at, page_at, sas_of_segment_lem}
use sosp_paper19_ae.PageQueue.Chain.{Holds, IsPage, Chain-frame}
use sosp_paper19_ae.Segment.{remove_pages, cxl_segment_free}
use sosp_paper19_ae.Segment.Remove.{
  elem, erase_range, remove_pages-Holds, remove_pages-other, erase_range-All,
}

module _ (size i k : ℕ) (few : i < max_thread) (small : k < max_segment_num) (m : Mem)
    (ys : List ℕ) where
  abbrev s : Shm
  s = handle_of size i

  abbrev queue : ℕ
  queue = free_page_at (tls_at i)

  abbrev rest : List ℕ
  rest = erase_range 1023 k 1 ys

  module _ (h : Holds m queue ys)
      (has : (j : ℕ) → 1 ≤ j → j < pages_per_segment → elem (page_at k j) ys ≡ true)
      (first_out : page_at k 0 ∉ ys) where
    abbrev removed : Mem
    removed = remove_pages 1023 queue (segment_at k) 1 m

    removed-Holds : Holds removed queue rest
    removed-Holds = remove_pages-Holds 1023 queue k 1 m ys (omega arith) h has

    abbrev cleared : Mem
    cleared = memset removed (segment_at k) cxl_segment_struct_size

    cleared-other :
        (a : ℕ)
        → (a < segment_at k) ⊎ (segment_at k + cxl_segment_struct_size ≤ a)
        → cleared a ≡ removed a
    unfolding memset
    cleared-other a out = ground (arith, out)

    inside :
        (x : ℕ)
        → IsPage x
        → x ≢ page_at k 0
        → ((j : ℕ) → 1 ≤ j → j < pages_per_segment → x ≢ page_at k j)
        → segment_at k ≤ x
        → ¬ (x < segment_at k + cxl_segment_struct_size)
    inside x is ne out lo hi =
        let j : ℕ = (x - segment_at k - 8) / cxl_page_size in
        let at : x ≡ page_at k j = omega (arith, is.whole, is.low, is.within) in
        elim (ℕ_discrete j 0) [
          | yes e ↦ ne (at ∙ ap (page_at k) e)
          | no pos ↦ out j (omega arith) (omega (arith, is.within)) at
        ]

    -- The other pages lie outside the header of the segment.
    other_page :
        (x d : ℕ)
        → IsPage x
        → x ≢ page_at k 0
        → ((j : ℕ) → 1 ≤ j → j < pages_per_segment → x ≢ page_at k j)
        → d < cxl_page_size
        → (x + d < segment_at k) ⊎ (segment_at k + cxl_segment_struct_size ≤ x + d)
    other_page x d is ne out lt = elim (dec_lt (x + d) (segment_at k)) [
      | yes before ↦ inl before
      | no not_before ↦ elim (dec_lt (x + d) (segment_at k + cxl_segment_struct_size)) [
        | no behind ↦ inr (omega arith)
        | yes within ↦ absurd (inside x is ne out (omega arith) (omega arith))
      ]
    ]

    rest-apart :
        All
          (λ x.
            (IsPage x × (page_at k 0 ≢ x))
            × ((j : ℕ) → 1 ≤ j → j < pages_per_segment → x ≢ page_at k j))
          rest
    rest-apart =
        let (distinct, pages) = Chain-AreDistinct m 0 (m queue) ys (m (last_at queue)) h in
        erase_range-All (λ x. IsPage x × (page_at k 0 ≢ x)) 1023 k 1 ys distinct
          (All-both IsPage (λ x. page_at k 0 ≢ x) ys pages first_out)

    cleared-Holds : Holds cleared queue rest
    cleared-Holds =
        rw
          (
            cleared-other queue (inl (omega arith)),
            cleared-other (last_at queue) (inl (omega arith)),
          )
          (Chain-frame removed cleared 0 (removed queue) rest (removed (last_at queue))
            (All-map
              (λ x.
                (IsPage x × (page_at k 0 ≢ x))
                × ((j : ℕ) → 1 ≤ j → j < pages_per_segment → x ≢ page_at k j))
              _ rest
              (λ x t. (
                cleared-other (next_at x)
                    (other_page x 24 t.0.0 (λ e. t.0.1 (sym e)) t.1 (omega arith)),
                cleared-other (prev_at x)
                    (other_page x 32 t.0.0 (λ e. t.0.1 (sym e)) t.1 (omega arith)),
              ))
              rest-apart)
            removed-Holds)

    low-kept : sas_thread_id cleared (sas_at k) ≡ sas_thread_id m (sas_at k)
    unfolding sas_thread_id
    low-kept = ap lo32 (
        cleared-other (sas_at k) (inl (omega arith))
        ∙ remove_pages-other 1023 queue k 1 (sas_at k) m ys (omega arith) h has
            (low-IsNoLink (sas_at k) (omega arith)) (omega arith) (omega arith))

    cleared-low :
        (a : ℕ) → a < segments_area_start → a ≢ queue → a ≢ last_at queue → cleared a ≡ m a
    cleared-low a low ne ne' =
        cleared-other a (inl (omega arith))
        ∙ remove_pages-other 1023 queue k 1 a m ys (omega arith) h has (low-IsNoLink a low) ne ne'

    abbrev freed : Mem
    freed = set_sas_thread_id (sas_at k) 0 cleared

    freed-other : (a : ℕ) → a ≢ sas_at k → freed a ≡ cleared a
    unfolding set_sas_thread_id store
    freed-other a ne = rw (ne→== a (sas_at k) ne) refl

    freed-owner : sas_thread_id freed (sas_at k) ≡ 0
    unfolding sas_thread_id set_sas_thread_id store
    freed-owner = ground arith

    cleared-page : (j : ℕ) → j < pages_per_segment → cleared (page_at k j) ≡ 0
    unfolding memset
    cleared-page j lt = ground arith

    free-run :
        sas_thread_id m (sas_at k) ≡ s.thread_id → cxl_segment_free s (segment_at k) m ≡ ok tt freed
    unfolding cxl_segment_free
    free-run own =
        rw (sas_of_segment_lem k, low-kept ∙ own, eq→== s.thread_id s.thread_id refl) refl

    -- `cxl_segment_free` of a segment of the thread, all of whose pages are in the free queue, ends;
    -- it takes these pages out of the queue, which keeps the others in their order, and leaves the
    -- segment without an owner and its pages without a free block, with no other word below the
    -- segments changed, as `cxl_segment_alloc` finds a
    -- segment that nobody has used.
    pub cxl_segment_free-Holds :
        sas_thread_id m (sas_at k) ≡ s.thread_id
        → (m' : Mem) × (cxl_segment_free s (segment_at k) m ≡ ok tt m')
          × Holds m' queue (erase_range 1023 k 1 ys)
          × All
              (λ x. (j : ℕ) → 1 ≤ j → j < pages_per_segment → x ≢ page_at k j)
              (erase_range 1023 k 1 ys)
          × (sas_thread_id m' (sas_at k) ≡ 0)
          × ((a : ℕ)
              → a < segments_area_start
              → a ≢ sas_at k
              → a ≢ queue
              → a ≢ last_at queue
              → m' a ≡ m a)
          × ((j : ℕ) → j < pages_per_segment → m' (page_at k j) ≡ 0)
    cxl_segment_free-Holds own = (
      freed,
      free-run own,
      Holds-outside cleared freed queue rest (freed-other queue (omega arith))
          (freed-other (last_at queue) (omega arith))
          (λ x is. (
            freed-other (next_at x) (omega (arith, is.high)),
            freed-other (prev_at x) (omega (arith, is.high)),
          ))
          cleared-Holds,
      All-map _ (λ x. (j : ℕ) → 1 ≤ j → j < pages_per_segment → x ≢ page_at k j) rest (λ x t. t.1)
          rest-apart,
      freed-owner,
      λ a low ne ne' ne''. freed-other a ne ∙ cleared-low a low ne' ne'',
      λ j lt. freed-other (page_at k j) (omega arith) ∙ cleared-page j lt,
    )
