-- ===== src/Alloc/Free.antt =====
-- `cxl_free` of src/alloc.cpp: a block goes back to its page, or to the list of its segment.
use sosp_paper19_ae.Base.{
  ℕ, ◌+◌, ◌≤◌, ◌<◌, ◌≡◌, ◌≢◌, refl, ap, ◌∙◌, ◌⊎◌, inl, List, ◌∷◌, arith, All, ne→==, eq→==, Bool,
}
use sosp_paper19_ae.Memory.{Mem, store, memset, ok, hi32, bits0}
use sosp_paper19_ae.Layout.{
  segments_area_start, local_free_at, counts_at, cxl_ptr_page, cxl_ptr_segment, cxl_segment_page_of,
  cxl_page_size,
}
use sosp_paper19_ae.Handle.{
  Shm, page_used, page_block_size, dec_page_used, set_page_used, segment_thread_id,
}
use sosp_paper19_ae.Page.Blocks.{Links, Links-same}
use sosp_paper19_ae.Page.Return.{IsBlock, block_ne}
use sosp_paper19_ae.Alloc.{cleared_size, free_local, cxl_free}

-- The descriptor of the page of a block, and the header of its segment, lie before the block.
pub page-lt : (b d : ℕ) → IsBlock b → d < cxl_page_size → cxl_ptr_page b + d < b
unfolding cxl_ptr_page cxl_ptr_segment cxl_segment_page_of
page-lt b d is lt = omega arith

pub segment-lt :
    (b : ℕ)
    → IsBlock b
    → (cxl_ptr_segment b < cxl_ptr_page b) × (segments_area_start ≤ cxl_ptr_segment b)
unfolding cxl_ptr_page cxl_ptr_segment cxl_segment_page_of
segment-lt b is = (omega arith, omega arith)

-- `free_local` in front of the list of the page.
module _ (b : ℕ) (is : IsBlock b) (m : Mem) where
  abbrev p : ℕ
  p = cxl_ptr_page b

  abbrev given : Mem
  given = free_local b p m

  given-other : (a : ℕ) → a ≢ b → a ≢ local_free_at p → a ≢ counts_at p → given a ≡ m a
  unfolding free_local dec_page_used set_page_used store
  given-other a out ne ne' = ground arith

  given-head : (given (local_free_at p) ≡ b) × (given b ≡ m (local_free_at p))
  unfolding free_local dec_page_used set_page_used store
  given-head = (
    ground (arith, page-lt b 8 is (omega arith)),
    ground (arith, page-lt b 8 is (omega arith), page-lt b 16 is (omega arith)),
  )

  given-counts :
      (0 < page_used m p → page_used given p + 1 ≡ page_used m p)
      × (page_block_size given p ≡ page_block_size m p)
  unfolding free_local dec_page_used set_page_used store page_used page_block_size
  given-counts = (
    λ pos. ground (arith, pos, page-lt b 16 is (omega arith)),
    ground (arith, page-lt b 16 is (omega arith)),
  )

  pub given-Links :
      (ls : List ℕ)
      → Links m (m (local_free_at p)) ls 0
      → All (λ a. (a ≢ b) × IsBlock a) ls
      → Links given (given (local_free_at p)) (b ∷ ls) 0
  given-Links ls h k = (
    given-head.0,
    rw (ap given given-head.0 ∙ given-head.1) (
        Links-same m given (λ a. (a ≢ b) × IsBlock a) (m (local_free_at p)) ls 0
          (λ a q.
            given-other a q.0 (block_ne a b 8 q.1 is (omega arith))
              (block_ne a b 16 q.1 is (omega arith)))
          k h),
  )

module _ (s : Shm) (special : Bool) (b : ℕ) (is : IsBlock b) (m : Mem) where
  abbrev size : ℕ
  size = cleared_size special (page_block_size m (cxl_ptr_page b))

  abbrev pub cleared : Mem
  cleared = memset m b size

  -- A word that is not cleared.
  abbrev pub IsOutside : ℕ → Type 0
  IsOutside a = (a < b) ⊎ (b + size ≤ a)

  pub cleared-other : (a : ℕ) → IsOutside a → cleared a ≡ m a
  unfolding memset
  cleared-other a out = ground (arith, out)

  cleared-page : (d : ℕ) → d < cxl_page_size → cleared (cxl_ptr_page b + d) ≡ m (cxl_ptr_page b + d)
  cleared-page d lt = cleared-other (cxl_ptr_page b + d) (inl (page-lt b d is lt))

  pub cleared-owner :
      segment_thread_id cleared (cxl_ptr_segment b) ≡ segment_thread_id m (cxl_ptr_segment b)
  unfolding segment_thread_id
  cleared-owner = ap bits0 (
      cleared-other (cxl_ptr_segment b)
        (inl (omega (arith, segment-lt b is, page-lt b 0 is (omega arith)))))

  cleared-used : page_used cleared (cxl_ptr_page b) ≡ page_used m (cxl_ptr_page b)
  unfolding page_used
  cleared-used = ap hi32 (cleared-page 16 (omega arith))

  pub cleared-Links :
      (f : ℕ) (ls : List ℕ) → All IsOutside ls → Links m f ls 0 → Links cleared f ls 0
  cleared-Links f ls k h = Links-same m cleared IsOutside f ls 0 cleared-other k h

  abbrev local : Mem
  local = free_local b (cxl_ptr_page b) cleared

  local-used :
      1 < page_used m (cxl_ptr_page b)
      → page_used local (cxl_ptr_page b) + 1 ≡ page_used m (cxl_ptr_page b)
  local-used more =
      (given-counts b is cleared).0 (rw cleared-used (omega (arith, more))) ∙ cleared-used

  local-run :
      segment_thread_id m (cxl_ptr_segment b) ≡ s.thread_id
      → 1 < page_used m (cxl_ptr_page b)
      → cxl_free s special b m ≡ ok tt local
  unfolding cxl_free
  local-run own more =
      rw
        (
          cleared-owner,
          own,
          eq→== s.thread_id s.thread_id refl,
          ne→== (page_used local (cxl_ptr_page b)) 0 (omega (arith, local-used more, more)),
        )
        refl

  -- `cxl_free` of a block of the thread's own segment, on a page with another block in use, puts the
  -- block in front of the `local_free` list of its page, counts the page one less in use, and changes
  -- no other word but those it clears.
  pub cxl_free-local :
      (ls : List ℕ)
      → segment_thread_id m (cxl_ptr_segment b) ≡ s.thread_id
      → 1 < page_used m (cxl_ptr_page b)
      → Links m (m (local_free_at (cxl_ptr_page b))) ls 0
      → All (λ a. (a ≢ b) × IsBlock a) ls
      → All IsOutside ls
      → (m' : Mem) × (cxl_free s special b m ≡ ok tt m')
        × Links m' (m' (local_free_at (cxl_ptr_page b))) (b ∷ ls) 0
        × (page_used m' (cxl_ptr_page b) + 1 ≡ page_used m (cxl_ptr_page b))
        × ((a : ℕ)
            → IsOutside a
            → a ≢ b
            → a ≢ local_free_at (cxl_ptr_page b)
            → a ≢ counts_at (cxl_ptr_page b)
            → m' a ≡ m a)
  cxl_free-local ls own more h k out = (
    local,
    local-run own more,
    given-Links b is cleared ls
        (rw (cleared-page 8 (omega arith))
          (cleared-Links (m (local_free_at (cxl_ptr_page b))) ls out h))
        k,
    local-used more,
    λ a o ne ne' ne''. given-other b is cleared a ne ne' ne'' ∙ cleared-other a o,
  )
