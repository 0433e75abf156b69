-- ===== src/Page/Fresh.antt =====
-- `cxl_page_fresh` of src/page.cpp: a page from the free queue, initialised for a bin.
use mathlib.Core.Path.{subst, ap}
use sosp_paper19_ae.Base.{
  [], ◌∷◌, Bool-cases, dec_lt, ℕ, ◌+◌, ◌*◌, ◌^◌, ◌/◌, ◌≤◌, ◌<◌, ◌≡◌, refl, ◌∙◌, ◌≢◌, ◌⊎◌, inl, inr,
  List, arith, ne→==, ◌==◌, if◌then◌else◌, Bool, ◌∉◌,
}
use sosp_paper19_ae.Memory.{hi32, lo32, Mem, store, ok}
use sosp_paper19_ae.Layout.{
  counts_at, cxl_bin_size, max_thread, pages_per_segment, page_size, cxl_page_size, free_page_at,
  pages_at, queue_block_size_at, tls_at, last_at, next_at, prev_at, is_msg_at, segments_area_start,
  local_free_at,
}
use sosp_paper19_ae.Layout.Pointers.{segment_at, page_at}
use sosp_paper19_ae.Handle.{page_used, page_block_size, Shm}
use sosp_paper19_ae.Thread.{handle_of}
use sosp_paper19_ae.PageQueue.{cxl_page_queue_push}
use sosp_paper19_ae.PageQueue.Push.{cxl_page_queue_push-only}
use sosp_paper19_ae.PageQueue.Chain.{IsPage, Holds}
use sosp_paper19_ae.PageQueue.Frame.{
  cxl_page_queue_push-first, free-IsNoLink, low-IsNoLink, pages_apart, cxl_page_queue_push-empty,
  Holds-frame,
}
use sosp_paper19_ae.Segment.{cxl_segment_page_alloc}
use sosp_paper19_ae.Segment.Take.{IsAside, Gives}
use sosp_paper19_ae.Page.{
  init_page, cxl_page_init, cxl_page_fresh, header_size, is_special, set_is_msg,
}
use sosp_paper19_ae.Page.Blocks.{Links, blocks, Links-frame}
use sosp_paper19_ae.Page.Init.{init_page-free, init_page-Links, init_page-other}

-- The blocks of a page are no descriptor of a page.
blocks_apart :
    (k j x d : ℕ)
    → IsPage x
    → 0 < j
    → j < pages_per_segment
    → d < cxl_page_size
    → (x + d < segment_at k + j * page_size) ⊎ (segment_at k + j * page_size + page_size ≤ x + d)
blocks_apart k j x d is pos lt lt' = elim (dec_lt (x + d) (segment_at k + j * page_size)) [
  | yes low ↦ inl low
  | no high ↦ elim (dec_lt (x + d) (segment_at k + j * page_size + page_size)) [
    | yes within ↦ absurd (omega arith)
    | no past ↦ inr (omega arith)
  ]
]

-- A page has been made for an empty bin: it is the bin's only page, all of its blocks are free, and
-- nothing else is written but the two queues below the segments and the links of pages.
pub record Made (m m' : Mem) (queue pq p area bsz : ℕ) (ps : List ℕ) : Type 0 where
  pub first : m' pq ≡ p
  pub only : Holds m' pq (p ∷ [])
  pub free : m' p ≡ area
  pub links : Links m' area (blocks (page_size / bsz) bsz area) 0
  pub used : page_used m' p ≡ 0
  pub block_size : page_block_size m' p ≡ bsz
  pub holds : Holds m' queue ps
  pub absent : p ∉ ps
  pub low :
      (a : ℕ)
      → 2 ^ 17 ≤ a
      → a < segments_area_start
      → a ≢ pq
      → a ≢ last_at pq
      → a ≢ queue
      → a ≢ last_at queue
      → m' a ≡ m a
  pub pages : (x : ℕ) → IsPage x → x ≢ p → m' x ≡ m x
  pub others :
      (a : ℕ)
      → IsAside queue a
      → a ≢ pq
      → a ≢ last_at pq
      → (a < p) ⊎ (p + cxl_page_size ≤ a)
      → (a < area) ⊎ (area + page_size ≤ a)
      → m' a ≡ m a

module _ (size i b k j bsz : ℕ) (few : i < max_thread) (bin : b < cxl_bin_size) (j_pos : 0 < j)
    (j_lt : j < pages_per_segment) (m m1 : Mem) (ps : List ℕ) where
  abbrev s : Shm
  s = handle_of size i

  abbrev pq : ℕ
  pq = pages_at (tls_at i) b

  abbrev queue : ℕ
  queue = free_page_at (tls_at i)

  abbrev p : ℕ
  p = page_at k j

  abbrev area : ℕ
  area = segment_at k + j * page_size

  abbrev special : Bool
  special = is_special s pq

  module _ (fits : header_size special ≤ bsz) (pos : 0 < bsz) (le : bsz ≤ page_size)
      (given : Gives m m1 queue p ps) where
    abbrev pub built : Mem
    built = init_page special p bsz m1

    abbrev pub marked : Mem
    marked = if pq == pages_at (tls_at i) 1 then set_is_msg p built else built

    abbrev pub fresh : Mem
    fresh = cxl_page_queue_push pq p marked

    pub marked-other : (a : ℕ) → a ≢ is_msg_at p → marked a ≡ built a
    unfolding set_is_msg store
    marked-other a ne = ground arith

    -- Words of other pages and of the queues.
    pub built-other :
        (a : ℕ)
        → (a < p) ⊎ (p + cxl_page_size ≤ a)
        → (a < area) ⊎ (area + page_size ≤ a)
        → built a ≡ m1 a
    built-other = init_page-other k j special bsz j_pos j_lt fits pos le m1

    pub low_other : (a : ℕ) → a < segments_area_start → marked a ≡ m1 a
    low_other a low =
        marked-other a (omega arith) ∙ built-other a (inl (omega arith)) (inl (omega arith))

    pub page_other : (x d : ℕ) → IsPage x → x ≢ p → d < cxl_page_size → marked (x + d) ≡ m1 (x + d)
    page_other x d is ne lt =
        marked-other (x + d) (ground (arith, pages_apart x p d is given.page ne lt))
        ∙ built-other (x + d) (pages_apart x p d is given.page ne lt)
            (blocks_apart k j x d is j_pos j_lt lt)

    module _ (empty : m pq ≡ 0) where
      no_page : marked pq ≡ 0
      no_page =
          low_other pq (omega arith)
          ∙ given.kept pq (record {
            high = omega arith;
            inside = inl (omega arith);
            no_link = low-IsNoLink pq (omega arith);
            no_first = omega arith;
            no_last = omega arith;
          })
          ∙ empty

      pub fresh-other :
          (a : ℕ) → a ≢ pq → a ≢ last_at pq → a ≢ next_at p → a ≢ prev_at p → fresh a ≡ marked a
      fresh-other a = cxl_page_queue_push-empty marked pq p a no_page given.page (omega arith)

      pub fresh-Holds : Holds fresh queue ps
      fresh-Holds =
          Holds-frame m1 fresh queue p ps
            (fresh-other queue (omega arith) (omega arith) (omega arith) (omega arith)
              ∙ low_other queue (omega arith))
            (fresh-other (last_at queue) (omega arith) (omega arith) (omega arith) (omega arith)
              ∙ low_other (last_at queue) (omega arith))
            (λ x is ne. (
              fresh-other (next_at x) (omega arith) (omega arith)
                    (ground (arith, pages_apart x p 24 is given.page ne (omega arith)))
                    (ground (arith, pages_apart x p 24 is given.page ne (omega arith)))
                  ∙ page_other x 24 is ne (omega arith),
              fresh-other (prev_at x) (omega arith) (omega arith)
                    (ground (arith, pages_apart x p 32 is given.page ne (omega arith)))
                    (ground (arith, pages_apart x p 32 is given.page ne (omega arith)))
                  ∙ page_other x 32 is ne (omega arith),
            ))
            given.absent given.holds

      abbrev init :
          Links built (built p) (blocks (page_size / bsz) bsz area) (m1 p)
          × (page_size / bsz * bsz ≤ page_size)
          × (built (local_free_at p) ≡ 0)
          × (page_used built p ≡ 0)
          × (page_block_size built p ≡ bsz)
      init = init_page-Links k j special bsz j_pos j_lt fits pos le m1

      built-free : built p ≡ area
      built-free = init_page-free k j special bsz j_pos j_lt fits pos le m1

      pub fresh-free : fresh p ≡ area
      fresh-free =
          fresh-other p (omega arith) (omega arith) (omega arith) (omega arith)
          ∙ marked-other p (omega arith)
          ∙ built-free

      p-IsAside : IsAside queue p
      p-IsAside = record {
        high = omega arith;
        inside = inr (omega arith);
        no_link = free-IsNoLink p given.page;
        no_first = omega arith;
        no_last = omega arith;
      }

      pub fresh-Links : m p ≡ 0 → Links fresh area (blocks (page_size / bsz) bsz area) 0
      fresh-Links e =
          Links-frame built fresh (page_size / bsz) bsz area area 0 pos
            (λ a lo hi.
              fresh-other a (omega arith) (omega arith) (omega arith) (omega arith)
              ∙ marked-other a (omega arith))
            (subst (λ e. Links built area (blocks (page_size / bsz) bsz area) e)
              (given.kept p p-IsAside ∙ e)
              (subst (λ f. Links built f (blocks (page_size / bsz) bsz area) (m1 p)) built-free
                init.0))

      fresh-low :
          (a : ℕ)
          → 2 ^ 17 ≤ a
          → a < segments_area_start
          → a ≢ pq
          → a ≢ last_at pq
          → a ≢ queue
          → a ≢ last_at queue
          → fresh a ≡ m a
      fresh-low a high low ne ne' ne'' ne3 =
          fresh-other a ne ne' (omega arith) (omega arith)
          ∙ low_other a low
          ∙ given.kept a (record {
            high = high;
            inside = inl low;
            no_link = low-IsNoLink a low;
            no_first = ne'';
            no_last = ne3;
          })

      fresh-page : (x : ℕ) → IsPage x → x ≢ p → fresh x ≡ m x
      fresh-page x is ne =
          let beside = pages_apart x p 0 is given.page ne (omega arith) in
          let same : x + 0 ≡ x = omega arith in
          fresh-other x (omega arith) (omega arith) (ground (arith, beside))
            (ground (arith, beside))
          ∙ subst (λ y. marked y ≡ m1 y) same (page_other x 0 is ne (omega arith))
          ∙ given.kept x (record {
            high = omega arith;
            inside = inr (omega arith);
            no_link = free-IsNoLink x is;
            no_first = omega arith;
            no_last = omega arith;
          })

      fresh-others :
          (a : ℕ)
          → IsAside queue a
          → a ≢ pq
          → a ≢ last_at pq
          → (a < p) ⊎ (p + cxl_page_size ≤ a)
          → (a < area) ⊎ (area + page_size ≤ a)
          → fresh a ≡ m a
      fresh-others a aside ne ne' out out' =
          fresh-other a ne ne' (ground (arith, out)) (ground (arith, out))
          ∙ marked-other a (ground (arith, out))
          ∙ built-other a out out'
          ∙ given.kept a aside

      -- Words before the page are those of the region with the page taken.
      pub fresh-before : (a : ℕ) → a < p → a ≢ pq → a ≢ last_at pq → fresh a ≡ m1 a
      fresh-before a before ne ne' =
          fresh-other a ne ne' (omega arith) (omega arith)
          ∙ marked-other a (omega arith)
          ∙ built-other a (inl before) (inl (omega arith))

      fresh-counts : fresh (counts_at p) ≡ built (counts_at p)
      fresh-counts =
          fresh-other (counts_at p) (omega arith) (omega arith) (omega arith) (omega arith)
          ∙ marked-other (counts_at p) (omega arith)

      pub fresh-Made : m p ≡ 0 → Made m fresh queue pq p area bsz ps
      unfolding page_used page_block_size
      fresh-Made e = record {
        only = cxl_page_queue_push-only marked pq p (omega arith) given.page no_page;
        first = cxl_page_queue_push-first marked pq p no_page given.page (omega arith);
        free = fresh-free;
        links = fresh-Links e;
        used = ap hi32 fresh-counts ∙ init.3;
        block_size = ap lo32 fresh-counts ∙ init.4;
        holds = fresh-Holds;
        absent = given.absent;
        low = fresh-low;
        pages = fresh-page;
        others = fresh-others;
      }

      pub fresh-run :
          m (queue_block_size_at pq) ≡ bsz
          → cxl_segment_page_alloc 2 s m ≡ ok p m1
          → cxl_page_fresh s pq m ≡ ok p fresh
      unfolding cxl_page_fresh cxl_page_init
      fresh-run size_of alloc = elim (Bool-cases (pq == pages_at (tls_at i) 1)) [
        | inl msg ↦
            rw (size_of, alloc, ne→== p 0 (omega arith), ne→== bsz 0 (omega arith), msg) refl
        | inr other ↦
            rw (size_of, alloc, ne→== p 0 (omega arith), ne→== bsz 0 (omega arith), other) refl
      ]
