-- ===== src/Page/Return.antt =====
-- `return_blocks`, the loop of `cxl_thread_free_collect` of src/page.cpp, and what it does to the
-- list of each page.
use sosp_paper19_ae.PageQueue.Frame.{fields_apart}
use sosp_paper19_ae.PageQueue.Chain.{IsPage}
use sosp_paper19_ae.Base.{
  ℕ, zero, suc, ◌+◌, ◌%◌, ◌^◌, ◌≤◌, ◌<◌, ◌≡◌, ◌≢◌, refl, sym, ◌⊎◌, inl, inr, List, [], ◌∷◌, length,
  arith, All, ◌∉◌, ne→==, eq→==, ◌==◌, if◌then◌else◌, ℕ_discrete, All-both, All-map, ◌∙◌, ap,
  AreDistinct,
}
use sosp_paper19_ae.Memory.{Mem, store, ok}
use sosp_paper19_ae.Layout.{
  segment_size, segments_area_start, page_size, local_free_at, counts_at, cxl_ptr_page,
  cxl_ptr_segment, cxl_segment_page_of,
}
use sosp_paper19_ae.Handle.{page_used, dec_page_used, set_page_used}
use sosp_paper19_ae.Page.{return_block, return_blocks}
use sosp_paper19_ae.Page.Blocks.{Links, Links-same}

-- An offset behind the header of a segment.
abbrev pub IsBlock : ℕ → Type 0
IsBlock c = (segments_area_start ≤ c) × (page_size ≤ c % segment_size)

-- Each block goes to its page, in the order of the list.
abbrev pub return_all : List ℕ → Mem → Mem
return_all [] m = m
return_all (x ∷ xs) m = return_all xs (return_block x m)

-- What a page's list becomes, and how many of the blocks are the page's.
abbrev pub returned : ℕ → List ℕ → List ℕ → List ℕ
returned p [] ls = ls
returned p (x ∷ xs) ls = returned p xs (if cxl_ptr_page x == p then x ∷ ls else ls)

abbrev pub returned_cnt : ℕ → List ℕ → ℕ
returned_cnt p [] = 0
returned_cnt p (x ∷ xs) = (if cxl_ptr_page x == p then 1 else 0) + returned_cnt p xs

-- A block is no word of a page.
pub block_ne : (c x d : ℕ) → IsBlock c → IsBlock x → d < 48 → c ≢ cxl_ptr_page x + d
unfolding cxl_ptr_page cxl_ptr_segment cxl_segment_page_of
block_ne c x d is is' lt = omega arith

pub block-IsPage : (x : ℕ) → IsBlock x → IsPage (cxl_ptr_page x)
unfolding cxl_ptr_page cxl_ptr_segment cxl_segment_page_of
block-IsPage x is = record {
  high = omega arith;
  low = omega arith;
  within = omega arith;
  whole = omega arith;
}

return_block-other :
    (x a : ℕ) (m : Mem)
    → a ≢ x
    → a ≢ local_free_at (cxl_ptr_page x)
    → a ≢ counts_at (cxl_ptr_page x)
    → return_block x m a ≡ m a
unfolding return_block dec_page_used set_page_used store
return_block-other x a m ne ne' ne'' = ground arith

return_block-Links :
    (x f : ℕ) (bs : List ℕ) (m : Mem)
    → IsBlock x
    → All IsBlock bs
    → x ∉ bs
    → Links m f bs 0
    → Links (return_block x m) f bs 0
return_block-Links x f bs m is all out h =
    Links-same m (return_block x m) (λ a. (x ≢ a) × IsBlock a) f bs 0
      (λ a k.
        return_block-other x a m (λ e. k.0 (sym e)) (block_ne a x 8 k.1 is (omega arith))
          (block_ne a x 16 k.1 is (omega arith)))
      (All-both (λ a. x ≢ a) IsBlock bs out all) h

-- The loop follows the links as they were, though it overwrites them.
pub return_blocks_lem :
    (fuel : ℕ) (xs : List ℕ) (b : ℕ) (m : Mem)
    → length xs < fuel
    → All IsBlock xs
    → AreDistinct xs
    → Links m b xs 0
    → return_blocks fuel b m ≡ ok tt (return_all xs m)
unfolding return_blocks
return_blocks_lem zero xs b m lt is apart h = absurd (omega arith)
return_blocks_lem (suc fuel) [] b m lt is apart h = rw h refl
return_blocks_lem (suc fuel) (x ∷ xs) b m lt is apart h =
    rw (h.0, ne→== x 0 (omega (arith, is.0.0)))
      (return_blocks_lem fuel xs (m x) (return_block x m) (omega arith) is.1 apart.1
        (return_block-Links x (m x) xs m is.0 is.1 apart.0 (rw (← h.0) h.1)))

-- One block: the fields of page `p`.
module _ (p : ℕ) (is_p : IsPage p) (x : ℕ) (is : IsBlock x) (m : Mem) where
  abbrev m' : Mem
  m' = return_block x m

  other_field : (d d' : ℕ) → d < 48 → d' < 48 → d ≢ d' → p + d ≢ cxl_ptr_page x + d'
  other_field d d' lt lt' ne e = ne (fields_apart d d' is_p (block-IsPage x is) lt lt' e)

  other_page : (d : ℕ) → d < 48 → cxl_ptr_page x ≢ p → (d ≡ 8) ⊎ (d ≡ 16) → m' (p + d) ≡ m (p + d)
  other_page d lt ne (inl e) =
      return_block-other x (p + d) m (omega arith) (omega arith)
        (other_field d 16 lt (omega arith) (omega arith))
  other_page d lt ne (inr e) =
      return_block-other x (p + d) m (omega arith) (other_field d 8 lt (omega arith) (omega arith))
        (omega arith)

  return_block-local :
      m' (local_free_at p) ≡ (if cxl_ptr_page x == p then x else m (local_free_at p))
  unfolding return_block dec_page_used set_page_used store
  return_block-local = elim (ℕ_discrete (cxl_ptr_page x) p) [
    | yes e ↦ rw (eq→== (cxl_ptr_page x) p e) (
        rw (← e)
          (ground (arith, block_ne x x 8 is is (omega arith), block_ne x x 16 is is (omega arith))))
    | no ne ↦ rw (ne→== (cxl_ptr_page x) p ne) (other_page 8 (omega arith) ne (inl (omega arith)))
  ]

  return_block-head : m' x ≡ m (local_free_at (cxl_ptr_page x))
  unfolding return_block dec_page_used set_page_used store
  return_block-head =
      ground (arith, block_ne x x 8 is is (omega arith), block_ne x x 16 is is (omega arith))

  return_block-used :
      (page_used m' p + (if cxl_ptr_page x == p then 1 else 0)) % 2 ^ 32 ≡ page_used m p
  unfolding return_block dec_page_used set_page_used page_used store
  return_block-used = elim (ℕ_discrete (cxl_ptr_page x) p) [
    | yes e ↦ rw (eq→== (cxl_ptr_page x) p e) (
        rw (← e)
          (ground (arith, block_ne x x 8 is is (omega arith), block_ne x x 16 is is (omega arith))))
    | no ne ↦
        rw (ne→== (cxl_ptr_page x) p ne)
          (rw (other_page 16 (omega arith) ne (inr (omega arith))) (omega arith))
  ]

module _ (p : ℕ) (is_p : IsPage p) where
  to_page :
      (x : ℕ) (m : Mem) (is : IsBlock x)
      → cxl_ptr_page x ≡ p
      → return_block x m (local_free_at p) ≡ x
  to_page x m is e = return_block-local p is_p x is m ∙ rw (eq→== (cxl_ptr_page x) p e) refl

  -- The list of page `p`, once the blocks are returned.
  pub return_all-Links :
      (xs ls : List ℕ) (m : Mem)
      → All IsBlock xs
      → All IsBlock ls
      → AreDistinct xs
      → All (λ x. x ∉ ls) xs
      → Links m (m (local_free_at p)) ls 0
      → Links (return_all xs m) (return_all xs m (local_free_at p)) (returned p xs ls) 0
  return_all-Links [] ls m is is' apart out h = h
  return_all-Links (x ∷ xs) ls m is is' apart out h = elim (ℕ_discrete (cxl_ptr_page x) p) [
    | yes e ↦ rw (eq→== (cxl_ptr_page x) p e) (
        return_all-Links xs (x ∷ ls) (return_block x m) is.1 (is.0, is') apart.1
          (All-map (λ y. (x ≢ y) × (y ∉ ls)) (λ y. y ∉ (x ∷ ls)) xs
            (λ y k. ((λ q. k.0 (sym q)), k.1))
            (All-both (λ y. x ≢ y) (λ y. y ∉ ls) xs apart.0 out.1))
          (
            to_page x m is.0 e,
            rw
                (ap (return_block x m) (to_page x m is.0 e)
                  ∙ return_block-head p is_p x is.0 m
                  ∙ ap (λ y. m (local_free_at y)) e)
                (return_block-Links x (m (local_free_at p)) ls m is.0 is' out.0 h),
          ))
    | no ne ↦ rw (ne→== (cxl_ptr_page x) p ne) (
        return_all-Links xs ls (return_block x m) is.1 is' apart.1 out.1 (
          rw (other_page p is_p x is.0 m 8 (omega arith) ne (inl (omega arith)))
            (return_block-Links x (m (local_free_at p)) ls m is.0 is' out.0 h)))
  ]

  pub return_all-used :
      (xs : List ℕ) (m : Mem)
      → All IsBlock xs
      → (page_used (return_all xs m) p + returned_cnt p xs) % 2 ^ 32 ≡ page_used m p
  unfolding page_used
  return_all-used [] m is = omega arith
  return_all-used (x ∷ xs) m is =
      let first = return_block-used p is_p x is.0 m in
      let rest = return_all-used xs (return_block x m) is.1 in omega (arith, first, rest)

pub return_all-other :
    (xs : List ℕ) (a : ℕ) (m : Mem)
    → a < segments_area_start
    → All IsBlock xs
    → return_all xs m a ≡ m a
return_all-other [] a m low is = refl
return_all-other (x ∷ xs) a m low is =
    let high = (block-IsPage x is.0).high in
    return_all-other xs a (return_block x m) low is.1
    ∙ return_block-other x a m (omega (arith, is.0.0)) (omega (arith, high)) (omega (arith, high))
