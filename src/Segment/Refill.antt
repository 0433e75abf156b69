-- ===== src/Segment/Refill.antt =====
-- `cxl_segment_page_alloc` of src/segment.cpp when the free queue of the thread is empty.
use sosp_paper19_ae.Base.{
  ℕ, zero, suc, ◌+◌, ◌*◌, ◌^◌, ◌≤◌, ◌<◌, ◌≡◌, refl, ◌∙◌, ◌≢◌, ◌⊎◌, inl, inr, List, [], ◌∷◌, ◌++◌,
  arith, ◌∉◌, ne→==, eq→==, ap, none, some,
}
use sosp_paper19_ae.Memory.{Mem, store, ok, lo32, hi32}
use sosp_paper19_ae.Layout.{
  max_segment_num, sas_at, pages_per_segment, free_page_at, max_thread, tls_at, last_at,
  segments_area_start, segment_size,
}
use sosp_paper19_ae.Layout.Pointers.{segment_at, page_at}
use sosp_paper19_ae.Handle.{
  Shm, set_sas_thread_id, sas_thread_id, set_segment_used, set_segment_thread_id, set_sas_info,
  segment_used,
}
use sosp_paper19_ae.Thread.{handle_of}
use sosp_paper19_ae.PageQueue.{cxl_page_queue_push}
use sosp_paper19_ae.PageQueue.Chain.{IsQueueAt, Holds}
use sosp_paper19_ae.PageQueue.Push.{cxl_page_queue_push-Holds}
use sosp_paper19_ae.PageQueue.Links.{IsLink}
use sosp_paper19_ae.PageQueue.Frame.{cxl_page_queue_push-other, low-IsNoLink, IsNoLink}
use sosp_paper19_ae.Segment.{
  push_pages, init_segment, claim_segment, segment_fuel, cxl_segment_alloc, cxl_segment_page_alloc,
  take_page,
}
use sosp_paper19_ae.Segment.Claim.{Fits, claim_segment-first}
use sosp_paper19_ae.Segment.FreeQueue.{
  page_range, page_at-IsPage, header, header-other, header-Holds, init_segment-Holds,
}
use sosp_paper19_ae.Segment.Take.{IsAside, Gives, take-Gives, page_alloc-take, take-low, take-used}

Holds-IsLink : (m : Mem) (q : ℕ) (xs : List ℕ) → Holds m q xs → IsLink (m q)
Holds-IsLink m q [] h = inl h.0
Holds-IsLink m q (x ∷ xs) h = inr (rw h.0 h.1)

push_pages-other :
    (n q k a : ℕ) (m : Mem) (xs : List ℕ)
    → IsQueueAt q
    → n < pages_per_segment
    → Holds m q xs
    → ((j : ℕ) → 1 ≤ j → j ≤ n → page_at k j ∉ xs)
    → IsNoLink a
    → a ≢ q
    → a ≢ last_at q
    → push_pages n q (segment_at k) m a ≡ m a
unfolding push_pages
push_pages-other zero q k a m xs at lt h out off ne ne' = refl
push_pages-other (suc n) q k a m xs at lt h out off ne ne' =
    let page : ℕ = page_at k (suc n) in
    let is = page_at-IsPage k (suc n) lt in
    let pushed =
      cxl_page_queue_push-Holds m q page at is xs h (out (suc n) (omega arith) (omega arith)) in
    push_pages-other n q k a (cxl_page_queue_push q page m) (page ∷ xs) at (omega arith) pushed
      (λ j lo hi. (omega arith, out j lo (omega arith))) off ne ne'
    ∙ cxl_page_queue_push-other m q page a (Holds-IsLink m q xs h) is at off ne ne'

header-IsNoLink : (k : ℕ) → IsNoLink (segment_at k)
header-IsNoLink k y is = (omega (arith, is.low, is.within), omega (arith, is.low, is.within))

module _ (size i k : ℕ) (few : i < max_thread) (small : k < max_segment_num) (m : Mem) where
  abbrev s : Shm
  s = handle_of size i

  abbrev queue : ℕ
  queue = free_page_at (tls_at i)

  abbrev claimed : Mem
  claimed = set_sas_thread_id (sas_at k) (i + 1) m

  claimed-other : (a : ℕ) → 2 ^ 17 ≤ a → claimed a ≡ m a
  unfolding set_sas_thread_id store
  claimed-other a high = rw (ne→== a (sas_at k) (omega arith)) refl

  claimed-Holds : Holds m queue [] → Holds claimed queue []
  claimed-Holds h =
      (claimed-other queue (omega arith) ∙ h.0, claimed-other (last_at queue) (omega arith) ∙ h.1)

  abbrev filled : Mem
  filled = init_segment s k claimed

  filled-other : (a : ℕ) → Holds m queue [] → IsAside queue a → filled a ≡ m a
  unfolding init_segment
  filled-other a h aside =
      push_pages-other 1023 queue k a (header size i k few small claimed []) [] (omega arith)
        (omega arith) (header-Holds size i k few small claimed [] (claimed-Holds h)) (λ j lo hi. tt)
        aside.no_link aside.no_first aside.no_last
      ∙ header-other size i k few small claimed [] a aside.high (ground (arith, aside.inside))
      ∙ claimed-other a aside.high

  filled-Holds : Holds m queue [] → Holds filled queue (page_at k 1 ∷ page_range 1022 k 2 ++ [])
  filled-Holds h =
      init_segment-Holds size i k few small claimed [] (claimed-Holds h) (λ j lo hi. tt)

  -- The thread is the owner of the segment.
  header-owner : sas_thread_id (header size i k few small claimed []) (sas_at k) ≡ i + 1
  unfolding set_segment_used set_segment_thread_id set_sas_info set_sas_thread_id sas_thread_id
      store
  header-owner =
      rw (ne→== (sas_at k) (segment_at k) (omega arith), eq→== (sas_at k) (sas_at k) refl)
        (ground arith)

  -- No page of it is in use.
  header-used : segment_used (header size i k few small claimed []) (segment_at k) ≡ 0
  unfolding set_segment_used segment_used store
  header-used = rw (eq→== (segment_at k) (segment_at k) refl) (omega arith)

  -- The words of the header and of the allocation state.
  filled-word :
      (a : ℕ)
      → Holds m queue []
      → IsNoLink a
      → a ≢ queue
      → a ≢ last_at queue
      → filled a ≡ header size i k few small claimed [] a
  unfolding init_segment
  filled-word a h off ne ne' =
      push_pages-other 1023 queue k a (header size i k few small claimed []) [] (omega arith)
        (omega arith) (header-Holds size i k few small claimed [] (claimed-Holds h)) (λ j lo hi. tt)
        off ne ne'

  filled-used : Holds m queue [] → segment_used filled (segment_at k) ≡ 0
  unfolding segment_used
  filled-used h =
      ap hi32 (filled-word (segment_at k) h (header-IsNoLink k) (omega arith) (omega arith))
      ∙ header-used

  taken-used : Holds m queue [] → segment_used (take_page s (page_at k 1) filled) (segment_at k) ≡ 1
  taken-used h =
      take-used size i few filled (page_at k 1) (page_range 1022 k 2 ++ []) (filled-Holds h) k 1
        (omega arith) refl (rw (filled-used h) (omega arith))
      ∙ ap (λ n. n + 1) (filled-used h)

  taken-owner :
      Holds m queue [] → sas_thread_id (take_page s (page_at k 1) filled) (sas_at k) ≡ i + 1
  unfolding sas_thread_id
  taken-owner h =
      ap lo32 (
        take-low size i few filled (page_at k 1) (page_range 1022 k 2 ++ []) (filled-Holds h)
          (sas_at k) (omega arith)
        ∙ filled-word (sas_at k) h (low-IsNoLink (sas_at k) (omega arith)) (omega arith)
            (omega arith))
      ∙ header-owner

  segment_alloc-claimed :
      claim_segment (segment_fuel s) s 0 m ≡ ok (some k) claimed
      → cxl_segment_alloc s m ≡ ok (segment_at k) filled
  unfolding cxl_segment_alloc
  segment_alloc-claimed claim = rw claim refl

  refill_round :
      (f : ℕ)
      → claim_segment (segment_fuel s) s 0 m ≡ ok (some k) claimed
      → Holds m queue []
      → cxl_segment_page_alloc (suc f) s m ≡ cxl_segment_page_alloc f s filled
  unfolding cxl_segment_page_alloc
  refill_round f claim h =
      rw (h.0, segment_alloc-claimed claim, ne→== (segment_at k) 0 (omega arith)) refl

  refilled-Gives :
      Holds m queue []
      → Gives m (take_page s (page_at k 1) filled) queue (page_at k 1) (page_range 1022 k 2 ++ [])
  refilled-Gives h =
      let g =
        take-Gives size i few filled (page_at k 1) (page_range 1022 k 2 ++ []) (filled-Holds h) in
      record {
        page = g.page;
        absent = g.absent;
        holds = g.holds;
        kept = λ a aside. g.kept a aside ∙ filled-other a h aside;
      }

module _ (size i : ℕ) (few : i < max_thread)
    (bounded : size ≤ segments_area_start + max_segment_num * segment_size) (m : Mem)
    (h : Holds m (free_page_at (tls_at i)) []) where
  no_segment :
      (fuel : ℕ)
      → claim_segment (segment_fuel (handle_of size i)) (handle_of size i) 0 m ≡ ok none m
      → cxl_segment_page_alloc (suc fuel) (handle_of size i) m ≡ ok 0 m
  unfolding cxl_segment_page_alloc cxl_segment_alloc
  no_segment fuel claim = rw (h.0, claim) refl

  -- With the free queue of the thread empty, `cxl_segment_page_alloc` claims the first segment that
  -- is free and ends within the region, of which the thread becomes the owner, puts its pages into
  -- the queue and takes page 1, which is the only one in use of the segment. It returns
  -- NULL, and changes nothing, only if every segment that fits belongs to a thread. Two calls are
  -- enough. The region has room for at most 4096 segments.
  pub cxl_segment_page_alloc-refill :
      (fuel : ℕ)
      → ((cxl_segment_page_alloc (suc (suc fuel)) (handle_of size i) m ≡ ok 0 m)
          × ((j : ℕ) → Fits (handle_of size i) j → sas_thread_id m (sas_at j) ≢ 0))
        ⊎ ((k : ℕ) × Fits (handle_of size i) k
            × (sas_thread_id m (sas_at k) ≡ 0)
            × ((j : ℕ) → j < k → sas_thread_id m (sas_at j) ≢ 0)
            × ((m' : Mem) × (cxl_segment_page_alloc (suc (suc fuel)) (handle_of size i) m
                  ≡ ok (page_at k 1) m')
                × (sas_thread_id m' (sas_at k) ≡ i + 1)
                × (segment_used m' (segment_at k) ≡ 1)
                × Gives m m' (free_page_at (tls_at i)) (page_at k 1) (page_range 1022 k 2 ++ [])))
  cxl_segment_page_alloc-refill fuel = elim (claim_segment-first (handle_of size i) m) [
    | inl r ↦ inl (no_segment (suc fuel) r.0, r.1)
    | inr (k, fits, free, taken, claim) ↦
        let small : k < max_segment_num = omega arith in
        inr (
          k,
          fits,
          free,
          taken,
          (
            take_page (handle_of size i) (page_at k 1) (filled size i k few small m),
            refill_round size i k few small m (suc fuel) claim h
                ∙ page_alloc-take size i few (filled size i k few small m) (page_at k 1)
                    (page_range 1022 k 2 ++ []) (filled-Holds size i k few small m h) fuel,
            taken-owner size i k few small m h,
            taken-used size i k few small m h,
            refilled-Gives size i k few small m h,
          ),
        )
  ]
