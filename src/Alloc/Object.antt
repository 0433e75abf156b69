-- ===== src/Alloc/Object.antt =====
-- `cxl_ref_alloc` of src/cxl_shm.cpp: a block of a page becomes an object with one reference.
use sosp_paper19_ae.Page.{cxl_malloc_generic}
use sosp_paper19_ae.Redo.Logged.{current_era-lt}
use sosp_paper19_ae.Layout.RefInfo.{pack_ref_info_fields}
use sosp_paper19_ae.Base.{
  ℕ, ◌+◌, ◌%◌, ◌^◌, ◌≤◌, ◌<◌, ◌≡◌, refl, ◌∙◌, ◌≢◌, ◌⊎◌, List, arith, ne→==, ap, false, ◌∷◌, All,
}
use sosp_paper19_ae.Memory.{Mem, store, load32, store32, hi32, bits16, ok}
use sosp_paper19_ae.Layout.{
  max_thread, era_array_start, cxl_page_size, root_flags_at, root_ref_size, counts_at, cxlobj_size,
  era, thread_local_vec_start, ref_info_at, embedded_ref_cnt_at, get_ref_cnt_from_info,
  get_lcid_from_info, pack_ref_info, cxl_page_queue, tls_at,
}
use sosp_paper19_ae.Handle.{Shm, page_used, inc_page_used, set_page_used, advance_era, current_era}
use sosp_paper19_ae.Thread.{handle_of}
use sosp_paper19_ae.Page.Blocks.{Links, Links-same}
use sosp_paper19_ae.Alloc.{
  pop_block, block_to_cxlobj, link_block_to_tbr, inc_root_ref_cnt, cxl_find_page, cxl_page_malloc,
  cxl_ref_alloc,
}
use sosp_paper19_ae.Ref.{root_ref_cnt}

-- The words behind the array of eras that an allocation of an object writes.
abbrev pub IsKept : ℕ → ℕ → ℕ → ℕ → Type 0
IsKept p b r a =
    (thread_local_vec_start ≤ a)
    × (a ≢ p)
    × (a ≢ counts_at p)
    × (a ≢ ref_info_at b)
    × (a ≢ embedded_ref_cnt_at b)
    × (a ≢ r)
    × (a ≢ root_flags_at r)

-- Block `b` of page `p` is an object that the root reference `r` leads to; the page has the blocks
-- `bs` left.
pub record IsObject (m m' : Mem) (owner p b r embedded : ℕ) (bs : List ℕ) : Type 0 where
  pub links : Links m' (m' p) bs 0
  pub object : m' r ≡ b
  pub handles : root_ref_cnt m' r ≡ (root_ref_cnt m r + 1) % 2 ^ 16
  pub count : get_ref_cnt_from_info (m' (ref_info_at b)) ≡ 1
  pub client : get_lcid_from_info (m' (ref_info_at b)) ≡ owner
  pub embedded_cnt : m' (embedded_ref_cnt_at b) ≡ embedded
  pub used : page_used m' p ≡ (page_used m p + 1) % 2 ^ 32
  pub kept : (a : ℕ) → IsKept p b r a → m' a ≡ m a

-- Block, page and root reference do not overlap.
pub record AreApart (p b r : ℕ) : Type 0 where
  pub page_high : thread_local_vec_start ≤ p
  pub block_high : thread_local_vec_start ≤ b
  pub root_high : thread_local_vec_start ≤ r
  pub block_page : (b + cxlobj_size ≤ p) ⊎ (p + cxl_page_size ≤ b)
  pub root_page : (r + root_ref_size ≤ p) ⊎ (p + cxl_page_size ≤ r)
  pub block_root : (b + cxlobj_size ≤ r) ⊎ (r + root_ref_size ≤ b)

pub advance_era-other :
    (size i a : ℕ) (m : Mem)
    → i < max_thread
    → thread_local_vec_start ≤ a
    → advance_era (handle_of size i) m a ≡ m a
unfolding advance_era store32 load32 era store
advance_era-other size i a m few high = ground arith

pub advance_era-below :
    (size i a : ℕ) (m : Mem)
    → i < max_thread
    → a < era_array_start
    → advance_era (handle_of size i) m a ≡ m a
unfolding advance_era store32 load32 era store
advance_era-below size i a m few low = ground arith

module _ (size i : ℕ) (few : i < max_thread) (m : Mem) (p b r embedded : ℕ)
    (apart : AreApart p b r) where
  abbrev s : Shm
  s = handle_of size i

  -- `link_block_to_tbr`, then `block_to_cxlobj` up to the era.
  abbrev popped : Mem
  popped = pop_block b p (link_block_to_tbr b r m)

  abbrev pub made : Mem
  made = block_to_cxlobj s b p embedded (link_block_to_tbr b r m)

  made-popped :
      (a : ℕ)
      → thread_local_vec_start ≤ a
      → a ≢ ref_info_at b
      → a ≢ embedded_ref_cnt_at b
      → made a ≡ popped a
  unfolding block_to_cxlobj store
  made-popped a high ne ne' =
      rw
        (
          ne→== a (embedded_ref_cnt_at b) ne',
          ne→== a (ref_info_at b) ne,
          advance_era-other size i a popped few high,
        )
        refl

  made-info : made (ref_info_at b) ≡ pack_ref_info (i + 1) 1 (current_era s popped)
  unfolding block_to_cxlobj store
  made-info = ground arith

  made-embedded : made (embedded_ref_cnt_at b) ≡ embedded
  unfolding block_to_cxlobj store
  made-embedded = ground arith

  popped-other : (a : ℕ) → IsKept p b r a → popped a ≡ m a
  unfolding pop_block link_block_to_tbr inc_root_ref_cnt inc_page_used set_page_used store
  popped-other a k = ground (arith, k)

  popped-low : (a : ℕ) → a < thread_local_vec_start → popped a ≡ m a
  unfolding pop_block link_block_to_tbr inc_root_ref_cnt inc_page_used set_page_used store
  popped-low a low = ground (arith, apart.page_high, apart.root_high, apart.block_high)

  -- Words before the eras are kept.
  pub made-before : (a : ℕ) → a < era_array_start → made a ≡ m a
  unfolding block_to_cxlobj store
  made-before a low =
      rw
        (
          ne→== a (embedded_ref_cnt_at b) (omega (arith, apart.block_high)),
          ne→== a (ref_info_at b) (omega (arith, apart.block_high)),
          advance_era-below size i a popped few low,
        )
        (popped-low a (omega arith))

  made-other : (a : ℕ) → IsKept p b r a → made a ≡ m a
  made-other a k = made-popped a k.0 k.3 k.4 ∙ popped-other a k

  popped-free : popped p ≡ m b
  unfolding pop_block link_block_to_tbr inc_root_ref_cnt inc_page_used set_page_used store
  popped-free = ground (arith, apart.block_page, apart.root_page, apart.block_root)

  popped-root : popped r ≡ b
  unfolding pop_block link_block_to_tbr inc_root_ref_cnt inc_page_used set_page_used store
  popped-root = ground (arith, apart.block_page, apart.root_page, apart.block_root)

  popped-handles : root_ref_cnt popped r ≡ (root_ref_cnt m r + 1) % 2 ^ 16
  unfolding pop_block link_block_to_tbr inc_root_ref_cnt inc_page_used set_page_used store
      root_ref_cnt
  popped-handles = ground (arith, apart.block_page, apart.root_page, apart.block_root)

  popped-used : page_used popped p ≡ (page_used m p + 1) % 2 ^ 32
  unfolding pop_block link_block_to_tbr inc_root_ref_cnt inc_page_used set_page_used store page_used
  popped-used = ground (arith, apart.block_page, apart.root_page, apart.block_root)

  made-links :
      (bs : List ℕ) → Links m (m p) (b ∷ bs) 0 → All (IsKept p b r) bs → Links made (made p) bs 0
  made-links bs h k =
      let free =
        made-popped p apart.page_high (ground (arith, apart.block_page))
          (ground (arith, apart.block_page))
        ∙ popped-free in
      rw free (Links-same m made (IsKept p b r) (m b) bs 0 made-other k (rw (← ap m h.0) h.1))

  pub made-IsObject :
      (bs : List ℕ)
      → Links m (m p) (b ∷ bs) 0
      → All (IsKept p b r) bs
      → IsObject m made (i + 1) p b r embedded bs
  unfolding page_used root_ref_cnt
  made-IsObject bs h k =
      let fields =
        pack_ref_info_fields (i + 1) 1 (current_era s popped) (omega arith) (omega arith)
          (current_era-lt size i few popped) in
      record {
        links = made-links bs h k;
        object =
            made-popped r apart.root_high (ground (arith, apart.block_root))
              (ground (arith, apart.block_root))
            ∙ popped-root;
        handles =
            ap bits16 (
              made-popped (root_flags_at r)
                (ground (
                  arith, apart.block_page, apart.root_page, apart.block_root, apart.page_high,
                  apart.root_high,
                ))
                (ground (
                  arith, apart.block_page, apart.root_page, apart.block_root, apart.page_high,
                  apart.root_high,
                ))
                (ground (
                  arith, apart.block_page, apart.root_page, apart.block_root, apart.page_high,
                  apart.root_high,
                )))
            ∙ popped-handles;
        count = ap get_ref_cnt_from_info made-info ∙ fields.1;
        client = ap get_lcid_from_info made-info ∙ fields.0;
        embedded_cnt = made-embedded;
        used =
            ap hi32 (
              made-popped (counts_at p)
                (ground (
                  arith, apart.block_page, apart.root_page, apart.block_root, apart.page_high,
                  apart.root_high,
                ))
                (ground (
                  arith, apart.block_page, apart.root_page, apart.block_root, apart.page_high,
                  apart.root_high,
                ))
                (ground (
                  arith, apart.block_page, apart.root_page, apart.block_root, apart.page_high,
                  apart.root_high,
                )))
            ∙ popped-used;
        kept = made-other;
      }

  ref_alloc-hit :
      (fuel block_size : ℕ)
      → (m (cxl_page_queue (tls_at i) false block_size) ≡ p)
      → m p ≡ b
      → cxl_ref_alloc fuel s r block_size embedded m
        ≡ ok (record { tbr = r; value = b + cxlobj_size }) made
  unfolding cxl_ref_alloc cxl_find_page cxl_page_malloc
  ref_alloc-hit fuel block_size first free =
      let nz = ne→== p 0 (omega (arith, apart.page_high)) in
      let nb = ne→== b 0 (omega (arith, apart.block_high)) in
      let nr = ne→== r 0 (omega (arith, apart.root_high)) in
      rw (first, nz, free, nb, nz, free, nr, nb) refl

  pub ref_alloc-miss :
      (fuel block_size : ℕ) (m0 : Mem)
      → m0 (cxl_page_queue (tls_at i) false block_size) ≡ 0
      → cxl_malloc_generic fuel s (cxl_page_queue (tls_at i) false block_size) m0 ≡ ok (p, b) m
      → cxl_ref_alloc fuel s r block_size embedded m0
        ≡ ok (record { tbr = r; value = b + cxlobj_size }) made
  unfolding cxl_ref_alloc cxl_find_page cxl_page_malloc
  ref_alloc-miss fuel block_size m0 empty run =
      let nb = ne→== b 0 (omega (arith, apart.block_high)) in
      let nr = ne→== r 0 (omega (arith, apart.root_high)) in rw (empty, run, nr, nb) refl

  -- While the first page of the bin has a free block, `cxl_ref_alloc` makes the first one an object with
  -- a count of 1 that the root reference leads to.
  pub cxl_ref_alloc-hit :
      (fuel block_size : ℕ) (bs : List ℕ)
      → m (cxl_page_queue (tls_at i) false block_size) ≡ p
      → Links m (m p) (b ∷ bs) 0
      → All (IsKept p b r) bs
      → (m' : Mem) × (cxl_ref_alloc fuel s r block_size embedded m
          ≡ ok (record { tbr = r; value = b + cxlobj_size }) m')
        × IsObject m m' (i + 1) p b r embedded bs
  cxl_ref_alloc-hit fuel block_size bs first h rest =
      (made, ref_alloc-hit fuel block_size first h.0, made-IsObject bs h rest)
