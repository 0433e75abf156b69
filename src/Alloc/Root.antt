-- ===== src/Alloc/Root.antt =====
-- `thread_base_ref_alloc` of src/cxl_shm.cpp: a root reference out of the free list of a page.
use sosp_paper19_ae.Page.{cxl_malloc_generic}
use sosp_paper19_ae.Thread.{handle_of}
use sosp_paper19_ae.Base.{
  ℕ, ◌+◌, ◌%◌, ◌^◌, ◌≤◌, ◌≡◌, ap, ◌≢◌, ◌⊎◌, List, ◌∷◌, arith, All, ne→==, refl, ◌<◌,
}
use sosp_paper19_ae.Memory.{Mem, store, byte0, fault, ok}
use sosp_paper19_ae.Layout.{
  cxl_page_size, root_flags_at, root_ref_size, counts_at, pages_at, tls_at, cxl_page_queue,
}
use sosp_paper19_ae.Handle.{page_used, page_block_size, inc_page_used, set_page_used, Shm}
use sosp_paper19_ae.Page.Blocks.{Links, Links-same}
use sosp_paper19_ae.Alloc.{
  pop_block, block_to_tbr, Shm, thread_base_ref_alloc, cxl_page_queue, cxl_find_page,
  cxl_page_malloc,
}
use sosp_paper19_ae.Ref.{root_ref_cnt}

-- A range of 16 bytes from `b` on does not meet the descriptor of a page.
abbrev pub IsBeside : ℕ → ℕ → Type 0
IsBeside p b = (b + root_ref_size ≤ p) ⊎ (p + cxl_page_size ≤ b)

-- The words that an allocation of a root reference writes.
abbrev pub IsKept : ℕ → ℕ → ℕ → Type 0
IsKept p b a = (a ≢ b) × (a ≢ root_flags_at b) × (a ≢ p) × (a ≢ counts_at p)

-- A root reference has been made of block `b` of page `p`: the page has the blocks `bs` left.
pub record IsRoot (m m' : Mem) (p b : ℕ) (bs : List ℕ) : Type 0 where
  pub links : Links m' (m' p) bs 0
  pub object : m' b ≡ 0
  pub flagged : byte0 (m' (root_flags_at b)) ≡ 1
  pub count : root_ref_cnt m' b ≡ 0
  pub used : page_used m' p ≡ (page_used m p + 1) % 2 ^ 32
  pub block_size : page_block_size m' p ≡ page_block_size m p
  pub kept : (a : ℕ) → IsKept p b a → m' a ≡ m a

pub block_to_tbr-other : (m : Mem) (p b a : ℕ) → IsKept p b a → block_to_tbr b p m a ≡ m a
unfolding block_to_tbr pop_block inc_page_used set_page_used store
block_to_tbr-other m p b a k = ground (arith, k)

module _ (m : Mem) (p b : ℕ) (bs : List ℕ) (beside : IsBeside p b) (h : Links m (m p) (b ∷ bs) 0)
    (rest : All (IsKept p b) bs) where
  abbrev m' : Mem
  m' = block_to_tbr b p m

  tbr-free : m' p ≡ m b
  unfolding block_to_tbr pop_block inc_page_used set_page_used store
  tbr-free = ground (arith, beside)

  pub block_to_tbr-IsRoot : IsRoot m m' p b bs
  unfolding block_to_tbr pop_block inc_page_used set_page_used page_used page_block_size
      root_ref_cnt store
  block_to_tbr-IsRoot = record {
    links = rw tbr-free (
        Links-same m m' (IsKept p b) (m b) bs 0 (block_to_tbr-other m p b) rest
          (rw (← ap m h.0) h.1));
    object = ground arith;
    flagged = ground arith;
    count = ground arith;
    used = ground (arith, beside);
    block_size = ground (arith, beside);
    kept = block_to_tbr-other m p b;
  }

module _ (size i : ℕ) (m : Mem) (p b : ℕ) where
  abbrev s : Shm
  s = handle_of size i

  abbrev pq : ℕ
  pq = pages_at (tls_at i) 0

  -- The first page of the bin has a free block.
  alloc-hit :
      (fuel : ℕ)
      → m pq ≡ p
      → p ≢ 0
      → m p ≡ b
      → b ≢ 0
      → thread_base_ref_alloc fuel s m ≡ ok b (block_to_tbr b p m)
  unfolding thread_base_ref_alloc cxl_page_queue cxl_find_page cxl_page_malloc
  alloc-hit fuel first ne free ne' =
      rw (first, ne→== p 0 ne, free, ne→== b 0 ne', ne→== p 0 ne, free, ne→== b 0 ne') refl

  -- The bin holds no page.
  pub alloc-miss :
      (fuel : ℕ) (m1 : Mem)
      → m pq ≡ 0
      → cxl_malloc_generic fuel s pq m ≡ ok (p, b) m1
      → b ≢ 0
      → thread_base_ref_alloc fuel s m ≡ ok b (block_to_tbr b p m1)
  unfolding thread_base_ref_alloc cxl_page_queue cxl_find_page cxl_page_malloc
  alloc-miss fuel m1 empty made ne = rw (empty, made, ne→== b 0 ne) refl

  pub alloc-fault :
      (fuel : ℕ)
      → m pq ≡ 0
      → cxl_malloc_generic fuel s pq m ≡ fault
      → thread_base_ref_alloc fuel s m ≡ fault
  unfolding thread_base_ref_alloc cxl_page_queue cxl_find_page cxl_page_malloc
  alloc-fault fuel empty made = rw (empty, made) refl

  -- While the first page of the bin of root references has a free block, `thread_base_ref_alloc` takes
  -- the first one: it is in use, leads to nothing and counts no handle, the page has the other blocks
  -- left and counts one more in use, and no other word changes. The blocks must not meet one another
  -- or the page.
  pub thread_base_ref_alloc-hit :
      (fuel : ℕ) (bs : List ℕ)
      → m pq ≡ p
      → 0 < p
      → 0 < b
      → IsBeside p b
      → Links m (m p) (b ∷ bs) 0
      → All (IsKept p b) bs
      → (m' : Mem) × (thread_base_ref_alloc fuel s m ≡ ok b m') × IsRoot m m' p b bs
  thread_base_ref_alloc-hit fuel bs first pos pos' beside h rest = (
    block_to_tbr b p m,
    alloc-hit fuel first (omega arith) h.0 (omega arith),
    block_to_tbr-IsRoot m p b bs beside h rest,
  )
