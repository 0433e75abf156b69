-- ===== src/Segment/FreeQueue.antt =====
-- The pages of a new segment in the free queue of its thread.
use mathlib.Core.Path.{subst}
use sosp_paper19_ae.Base.{
  ne→==, ◌^◌, ℕ, zero, suc, ◌+◌, ◌≤◌, ◌<◌, ◌≡◌, refl, ap, ◌∙◌, ◌≢◌, List, [], ◌∷◌, ◌++◌, arith, All,
  ◌∉◌,
}
use sosp_paper19_ae.Memory.{Mem, store, with_hi32}
use sosp_paper19_ae.Layout.{
  sas_thread_free_at, sas_state_at, pages_per_segment, free_page_at, max_thread, tls_at, sas_at,
  normal, last_at, next_at, prev_at, max_segment_num,
}
use sosp_paper19_ae.Layout.Pointers.{segment_at, page_at}
use sosp_paper19_ae.Handle.{set_segment_used, set_segment_thread_id, set_sas_info}
use sosp_paper19_ae.Thread.{handle_of}
use sosp_paper19_ae.PageQueue.{cxl_page_queue_push}
use sosp_paper19_ae.PageQueue.Chain.{IsPage, IsQueueAt, Chain, Holds, Chain-frame}
use sosp_paper19_ae.PageQueue.Push.{cxl_page_queue_push-Holds}
use sosp_paper19_ae.Segment.{push_pages, init_segment}

-- The page descriptors `i` to `i + n - 1` of segment `k`.
abbrev pub page_range : ℕ → ℕ → ℕ → List ℕ
page_range zero k i = []
page_range (suc n) k i = page_at k i ∷ page_range n k (i + 1)

page_range-snoc :
    (n k i : ℕ) (xs : List ℕ)
    → page_range n k i ++ page_at k (i + n) ∷ xs ≡ page_range (suc n) k i ++ xs
page_range-snoc zero k i xs = ap (λ j. page_at k j ∷ xs) (omega arith)
page_range-snoc (suc n) k i xs =
    ap (λ l. page_at k i ∷ l)
      (ap (λ j. page_range n k (i + 1) ++ page_at k j ∷ xs) (omega arith)
        ∙ page_range-snoc n k (i + 1) xs)

pub page_at-IsPage : (k i : ℕ) → i < pages_per_segment → IsPage (page_at k i)
page_at-IsPage k i lt = record {
  high = omega arith;
  low = omega arith;
  within = omega arith;
  whole = omega arith;
}

-- The loop puts the pages 1 to `n` in front, in order.
pub push_pages-Holds :
    (n q k : ℕ) (m : Mem) (xs : List ℕ)
    → IsQueueAt q
    → n < pages_per_segment
    → Holds m q xs
    → ((j : ℕ) → 1 ≤ j → j ≤ n → page_at k j ∉ xs)
    → Holds (push_pages n q (segment_at k) m) q (page_range n k 1 ++ xs)
unfolding push_pages
push_pages-Holds zero q k m xs at lt h out = h
push_pages-Holds (suc n) q k m xs at lt h out =
    let page : ℕ = page_at k (suc n) in
    let pushed =
      cxl_page_queue_push-Holds m q page at (page_at-IsPage k (suc n) lt) xs h
        (out (suc n) (omega arith) (omega arith)) in
    subst (λ l. Holds (push_pages (suc n) q (segment_at k) m) q l)
      (ap (λ j. page_range n k 1 ++ page_at k j ∷ xs) (omega arith) ∙ page_range-snoc n k 1 xs)
      (push_pages-Holds n q k (cxl_page_queue_push q page m) (page ∷ xs) at (omega arith) pushed
        (λ j lo hi. (omega arith, out j lo (omega arith))))

module _ (size i k : ℕ) (few : i < max_thread) (small : k < max_segment_num) (m : Mem)
    (xs : List ℕ) where
  abbrev queue : ℕ
  queue = free_page_at (tls_at i)

  -- `init_segment` up to the loop.
  abbrev pub header : Mem
  header = set_segment_used (segment_at k) 0 (
      set_segment_thread_id (segment_at k) (i + 1)
        (set_sas_info (sas_at k) 0 0 (store m (sas_at k) (with_hi32 (m (sas_at k)) normal))))

  -- The header of the segment and its allocation state are neither a queue of a thread nor links.
  pub header-other : (a : ℕ) → 2 ^ 17 ≤ a → a ≢ segment_at k → header a ≡ m a
  unfolding set_segment_used set_segment_thread_id set_sas_info store
  header-other a high ne =
      rw
        (
          ne→== a (segment_at k) ne,
          ne→== a (sas_thread_free_at (sas_at k)) (omega arith),
          ne→== a (sas_state_at (sas_at k)) (omega arith),
          ne→== a (sas_at k) (omega arith),
        )
        refl

  header-page : (p a : ℕ) → IsPage p → p ≤ a → a < p + 48 → header a ≡ m a
  header-page p a is lo hi = header-other a (omega arith) (omega arith)

  header-pages :
      (before f : ℕ) (ys : List ℕ) (last : ℕ)
      → Chain m before f ys last
      → All (λ x. (header (next_at x) ≡ m (next_at x)) × (header (prev_at x) ≡ m (prev_at x))) ys
  header-pages before f [] last h = tt
  header-pages before f (y ∷ ys) last h = (
    (
      header-page y (next_at y) h.1 (omega arith) (omega arith),
      header-page y (prev_at y) h.1 (omega arith) (omega arith),
    ),
    header-pages y (m (next_at y)) ys last h.4,
  )

  pub header-Holds : Holds m queue xs → Holds header queue xs
  header-Holds h =
      rw
        (
          header-other queue (omega arith) (omega arith),
          header-other (last_at queue) (omega arith) (omega arith),
        )
        (Chain-frame m header 0 (m queue) xs (m (last_at queue))
          (header-pages 0 (m queue) xs (m (last_at queue)) h) h)

  -- The pages 1 to 1023 of a segment that thread `i + 1` has claimed come first in its free queue,
  -- in order, before those that were there, if none of the segment's pages was among them.
  pub init_segment-Holds :
      Holds m queue xs
      → ((j : ℕ) → 1 ≤ j → j < pages_per_segment → page_at k j ∉ xs)
      → Holds (init_segment (handle_of size i) k m) queue (page_range 1023 k 1 ++ xs)
  unfolding init_segment
  init_segment-Holds h out =
      push_pages-Holds 1023 queue k header xs (omega arith) (omega arith) (header-Holds h)
        (λ j lo hi. out j lo (omega arith))
