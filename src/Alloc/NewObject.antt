-- ===== src/Alloc/NewObject.antt =====
-- `cxl_ref_alloc` of src/cxl_shm.cpp for a bin that holds no page.
use sosp_paper19_ae.Page.{header_size, is_special}
use mathlib.Core.Path.{subst}
use sosp_paper19_ae.Base.{
  ℕ, zero, suc, ◌+◌, ◌-◌, ◌*◌, ◌^◌, ◌/◌, ◌≤◌, ◌<◌, ◌≡◌, ◌∙◌, inl, inr, List, ◌∷◌, arith, All, false,
  sym,
}
use sosp_paper19_ae.Memory.{Mem, ok}
use sosp_paper19_ae.Layout.{
  page_size, free_page_at, queue_block_size_at, max_thread, cxl_page_size, pages_at, tls_at,
  root_flags_at, root_ref_size, cxl_page_queue, cxlobj_size, cxl_bin_size, pages_per_segment,
  thread_local_vec_start,
}
use sosp_paper19_ae.Layout.Pointers.{segment_at, page_at}
use sosp_paper19_ae.Handle.{Shm}
use sosp_paper19_ae.Thread.{handle_of}
use sosp_paper19_ae.PageQueue.Chain.{Holds}
use sosp_paper19_ae.Segment.Take.{IsAside}
use sosp_paper19_ae.Page.Blocks.{Links, blocks}
use sosp_paper19_ae.Page.Init.{some_block}
use sosp_paper19_ae.Page.Fresh.{Made}
use sosp_paper19_ae.Page.Generic.{cxl_malloc_generic-take, unlogged, unlogged-other}
use sosp_paper19_ae.Alloc.{cxl_ref_alloc}
use sosp_paper19_ae.Alloc.Object.{
  IsObject, AreApart, IsKept, made-IsObject, ref_alloc-miss, made, made-before,
}

-- The blocks of a page but its first are apart from the first, and from a root reference before it.
blocks-IsKept :
    (n size b c p r : ℕ)
    → thread_local_vec_start ≤ c
    → p + cxl_page_size ≤ c
    → r + root_ref_size ≤ c
    → c + cxlobj_size ≤ b
    → cxlobj_size ≤ size
    → All (IsKept p c r) (blocks n size b)
blocks-IsKept zero size b c p r high above root behind fits = tt
blocks-IsKept (suc n) size b c p r high above root behind fits =
    (ground arith, blocks-IsKept n size (b + size) c p r high above root (omega arith) fits)

-- A root reference in page 1 of segment `k`, and an object in page `j` behind it.
module _ (size i b bsz k j r : ℕ) (few : i < max_thread) (bin : b < cxl_bin_size) (second : 2 ≤ b)
    (j_pos : 1 < j) (j_lt : j < pages_per_segment) (fits : cxlobj_size ≤ bsz) (le : bsz ≤ page_size)
    (lo : segment_at k + page_size ≤ r)
    (hi : r + root_ref_size ≤ segment_at k + 2 * page_size) where
  abbrev s : Shm
  s = handle_of size i

  abbrev pq : ℕ
  pq = pages_at (tls_at i) b

  abbrev p : ℕ
  p = page_at k j

  abbrev area : ℕ
  area = segment_at k + j * page_size

  are_apart : AreApart p area r
  are_apart = record {
    page_high = omega arith;
    block_high = omega arith;
    root_high = omega arith;
    block_page = inr (omega arith);
    root_page = inr (omega arith);
    block_root = inr (omega arith);
  }

  header : header_size (is_special s pq) ≤ bsz
  header = ground arith

  flags-IsAside : IsAside (free_page_at (tls_at i)) (root_flags_at r)
  flags-IsAside = record {
    high = omega arith;
    inside = inr (omega arith);
    no_link = λ y is. omega (arith, is.within);
    no_first = omega arith;
    no_last = omega arith;
  }

  module _ (m : Mem) where
    abbrev mu : Mem
    mu = unlogged size i b few bin m

    flags-kept :
        (m1 : Mem) (ps : List ℕ)
        → Made mu m1 (free_page_at (tls_at i)) pq p area bsz ps
        → m1 (root_flags_at r) ≡ m (root_flags_at r)
    flags-kept m1 ps h =
        h.others (root_flags_at r) flags-IsAside (omega arith) (omega arith) (inr (omega arith))
          (inl (omega arith))
        ∙ unlogged-other size i b few bin m (root_flags_at r) (inr (omega arith))

    some_blocks : page_size / bsz ≡ suc (page_size / bsz - 1)
    some_blocks = omega (arith, some_block page_size bsz (omega arith) le)

    new_links :
        (m1 : Mem)
        → m1 p ≡ area
        → Links m1 area (blocks (page_size / bsz) bsz area) 0
        → Links m1 (m1 p) (area ∷ blocks (page_size / bsz - 1) bsz (area + bsz)) 0
    new_links m1 free h =
        subst (λ f. Links m1 f (area ∷ blocks (page_size / bsz - 1) bsz (area + bsz)) 0) (sym free)
          (subst (λ n. Links m1 area (blocks n bsz area) 0) some_blocks h)

    -- When the bin of the size has no page, `cxl_ref_alloc` makes the first page of the free queue a page
    -- of the bin, and its first block an object that the root reference, in page 1, leads to.
    pub cxl_ref_alloc-new :
        (fuel block_size embedded : ℕ) (ps : List ℕ)
        → cxl_page_queue (tls_at i) false block_size ≡ pq
        → m pq ≡ 0
        → Holds m (free_page_at (tls_at i)) (p ∷ ps)
        → m (queue_block_size_at pq) ≡ bsz
        → m p ≡ 0
        → (m1 m' : Mem) × (cxl_ref_alloc (suc fuel) s r block_size embedded m
            ≡ ok (record { tbr = r; value = area + cxlobj_size }) m')
          × ((a : ℕ) → a < 2 ^ 17 → m' a ≡ m a)
          × Made mu m1 (free_page_at (tls_at i)) pq p area bsz ps
          × (m1 (root_flags_at r) ≡ m (root_flags_at r))
          × IsObject m1 m' (i + 1) p area r embedded (blocks (page_size / bsz - 1) bsz (area + bsz))
    cxl_ref_alloc-new fuel block_size embedded ps at empty some_left size_of unused =
        let (m1, run, before, h) =
          cxl_malloc_generic-take size i b few bin m fuel bsz k j ps (omega arith) j_lt empty
            some_left size_of header (omega arith) le unused in
        (
          m1,
          made size i few m1 p area r embedded are_apart,
          ref_alloc-miss size i few m1 p area r embedded are_apart (suc fuel) block_size m
              (rw at empty) (rw at run),
          λ a low.
              made-before size i few m1 p area r embedded are_apart a (omega arith) ∙ before a low,
          h,
          flags-kept m1 ps h,
          made-IsObject size i few m1 p area r embedded are_apart
              (blocks (page_size / bsz - 1) bsz (area + bsz)) (new_links m1 h.free h.links)
              (blocks-IsKept (page_size / bsz - 1) bsz (area + bsz) area p r (omega arith)
                (omega arith) (omega arith) (omega arith) fits),
        )
