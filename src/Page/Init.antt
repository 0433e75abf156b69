-- ===== src/Page/Init.antt =====
-- A page that `cxl_page_init` of src/page.cpp has initialised.
use native.Mathlib.Nat.{div-mul-le_self, le-div_iff_mul-le}
use sosp_paper19_ae.Base.{
  ◌⊎◌, inr, ne→==, eq→==, ℕ, zero, suc, ◌+◌, ◌-◌, ◌*◌, ◌/◌, ◌≤◌, ◌<◌, ◌≡◌, refl, ◌∙◌, sym, ap, ◌≢◌,
  inl, arith, Bool,
}
use sosp_paper19_ae.Memory.{hi32, lo32, Mem, store}
use sosp_paper19_ae.Layout.{
  counts_at, page_size, pages_per_segment, local_free_at, cxl_page_size, cxl_page_block_at,
}
use sosp_paper19_ae.Layout.Pointers.{segment_at, page_at, segment_of-page_at, cxl_page_start_lem}
use sosp_paper19_ae.Handle.{page_used, page_block_size, set_page_used, set_page_block_size}
use sosp_paper19_ae.Page.{link_blocks, init_page, reset_page, header_size}
use sosp_paper19_ae.Page.Blocks.{
  Links, blocks, Links-frame, Links-snoc, link_blocks-other, link_blocks-Links,
}

pub some_block : (n size : ℕ) → 0 < size → size ≤ n → 0 < n / size
some_block n size pos le = (le-div_iff_mul-le pos).1 (omega arith)

last_whole : (q size n : ℕ) → 0 < q → q * size ≤ n → (q - 1) * size + size ≤ n
last_whole zero size n lt le = absurd (omega arith)
last_whole (suc q) size n lt le = let e : suc q - 1 ≡ q = omega arith in rw e (omega (arith, le))

module _ (k i : ℕ) (special : Bool) (size : ℕ) (i_pos : 0 < i) (i_lt : i < pages_per_segment)
    (fits : header_size special ≤ size) (pos : 0 < size) (le : size ≤ page_size) (m : Mem) where
  abbrev p : ℕ
  p = page_at k i

  abbrev area : ℕ
  area = segment_at k + i * page_size

  abbrev rounds : ℕ
  rounds = page_size / size - 1

  rounds-size : rounds * size + size ≤ page_size
  rounds-size =
      last_whole (page_size / size) size page_size (some_block page_size size pos le)
        (div-mul-le_self page_size size)

  -- The descriptor of the page lies before its blocks.
  p-area : p + cxl_page_size ≤ area
  p-area = omega arith

  abbrev cleared : Mem
  cleared = reset_page p size m

  abbrev linked : Mem
  linked = link_blocks rounds (header_size special) size area cleared

  linked-low : (a : ℕ) → a < area → linked a ≡ cleared a
  linked-low a lt =
      link_blocks-other (header_size special) size fits pos rounds area a cleared (inl lt)

  cleared-free : cleared p ≡ m p
  unfolding reset_page set_page_used set_page_block_size store
  cleared-free = ground arith

  init_page_lem :
      init_page special p size m ≡ store (store linked (area + rounds * size) (m p)) p area
  unfolding init_page cxl_page_block_at
  init_page_lem = rw (segment_of-page_at k i i_lt, cxl_page_start_lem k i, first, free) refl
    where
      first : area + 0 * size ≡ area
      first = omega arith

      free : linked p ≡ m p
      free = linked-low p (omega (arith, p-area)) ∙ cleared-free

  abbrev done : Mem
  done = store (store linked (area + rounds * size) (m p)) p area

  done-block : (a : ℕ) → area ≤ a → a < area + rounds * size → done a ≡ linked a
  unfolding store
  done-block a lo hi =
      rw (ne→== a p (omega (arith, p-area)), ne→== a (area + rounds * size) (omega arith)) refl

  done-last : done (area + rounds * size) ≡ m p
  unfolding store
  done-last =
      rw
        (
          ne→== (area + rounds * size) p (omega (arith, p-area)),
          eq→== (area + rounds * size) (area + rounds * size) refl,
        )
        refl

  done-Links : Links done area (blocks (suc rounds) size area) (m p)
  done-Links =
      Links-snoc done rounds size area area (m p)
        (Links-frame linked done rounds size area area (area + rounds * size) pos done-block
          (link_blocks-Links (header_size special) size fits pos rounds area cleared))
        done-last

  done-low : (a : ℕ) → a < area → a ≢ p → done a ≡ cleared a
  unfolding store
  done-low a lt ne =
      rw (ne→== a p ne, ne→== a (area + rounds * size) (omega arith)) (linked-low a lt)

  done-free : done p ≡ area
  unfolding store
  done-free = rw (eq→== p p refl) refl

  all_blocks : (n : ℕ) → suc rounds ≡ n → Links done area (blocks n size area) (m p)
  all_blocks n e = rw (sym e) done-Links

  cleared-local_free : cleared (local_free_at p) ≡ 0
  unfolding reset_page set_page_used set_page_block_size store
  cleared-local_free = ground arith

  cleared-used : hi32 (cleared (counts_at p)) ≡ 0
  unfolding reset_page set_page_used set_page_block_size store
  cleared-used = ground arith

  cleared-size : lo32 (cleared (counts_at p)) ≡ size
  unfolding reset_page set_page_used set_page_block_size store
  cleared-size = ground arith

  -- After `cxl_page_init` the free list of page `i` of segment `k`, from 1 on, is made of all the
  -- blocks of the size that the page has room for, in order, before what was free before; `used`
  -- and `local_free` are 0, and the block size is set. The size is at most that of the page, and at
  -- least the header that is cleared.
  pub init_page-Links :
      Links
        (init_page special p size m)
        (init_page special p size m p)
        (blocks (page_size / size) size area)
        (m p)
      × (page_size / size * size ≤ page_size)
      × (init_page special p size m (local_free_at p) ≡ 0)
      × (page_used (init_page special p size m) p ≡ 0)
      × (page_block_size (init_page special p size m) p ≡ size)
  unfolding page_used page_block_size
  init_page-Links =
      rw (init_page_lem, done-free)
        (
          all_blocks (page_size / size) (omega (arith, some_block page_size size pos le)),
          div-mul-le_self page_size size,
          done-low (local_free_at p) (omega (arith, p-area)) (omega arith) ∙ cleared-local_free,
          ap hi32 (done-low (counts_at p) (omega (arith, p-area)) (omega arith)) ∙ cleared-used,
          ap lo32 (done-low (counts_at p) (omega (arith, p-area)) (omega arith)) ∙ cleared-size,
        )

  pub init_page-free : init_page special p size m p ≡ area
  init_page-free = rw init_page_lem done-free

  cleared-other : (a : ℕ) → (a < p) ⊎ (p + cxl_page_size ≤ a) → cleared a ≡ m a
  unfolding reset_page set_page_used set_page_block_size store
  cleared-other a (inl lt) = ground arith
  cleared-other a (inr le) = ground arith

  done-high : (a : ℕ) → area + page_size ≤ a → done a ≡ cleared a
  unfolding store
  done-high a past =
      rw
        (
          ne→== a p (omega (arith, p-area)),
          ne→== a (area + rounds * size) (omega (arith, rounds-size)),
        )
        (link_blocks-other (header_size special) size fits pos rounds area a cleared
          (inr (omega (arith, rounds-size))))

  -- It writes the descriptor of the page and its blocks.
  pub init_page-other :
      (a : ℕ)
      → (a < p) ⊎ (p + cxl_page_size ≤ a)
      → (a < area) ⊎ (area + page_size ≤ a)
      → init_page special p size m a ≡ m a
  init_page-other a beside (inl lt) =
      rw init_page_lem (done-low a lt (ground (arith, beside)) ∙ cleared-other a beside)
  init_page-other a beside (inr past) = rw init_page_lem (done-high a past ∙ cleared-other a beside)
