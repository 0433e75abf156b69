-- ===== src/Page/Blocks.antt =====
-- The free list that `cxl_page_init` of src/page.cpp builds.
use sosp_paper19_ae.Base.{
  ℕ, zero, suc, ◌+◌, ◌*◌, ◌≤◌, ◌<◌, ◌≡◌, refl, ◌∙◌, ◌⊎◌, inl, arith, List, [], ◌∷◌, length, ap, sym,
  All,
}
use sosp_paper19_ae.Memory.{Mem, store, memset}
use sosp_paper19_ae.Page.{link_blocks}

-- From `b` on, the first words of the blocks lead through `bs` to `e`.
abbrev pub Links : Mem → ℕ → List ℕ → ℕ → Type 0
Links m b [] e = b ≡ e
Links m b (x ∷ bs) e = (b ≡ x) × Links m (m b) bs e

-- `n` blocks of a size, one behind the other.
abbrev pub blocks : ℕ → ℕ → ℕ → List ℕ
blocks zero size b = []
blocks (suc n) size b = b ∷ blocks n size (b + size)

pub length-blocks : (n size b : ℕ) → length (blocks n size b) ≡ n
length-blocks zero size b = refl
length-blocks (suc n) size b = omega (arith, length-blocks n size (b + size))

-- The links depend on the words of the blocks alone.
pub Links-frame :
    (m m' : Mem) (n size b p e : ℕ)
    → 0 < size
    → ((a : ℕ) → b ≤ a → a < b + n * size → m' a ≡ m a)
    → Links m p (blocks n size b) e
    → Links m' p (blocks n size b) e
Links-frame m m' zero size b p e pos same h = h
Links-frame m m' (suc n) size b p e pos same h = (
  h.0,
  rw (ap m' h.0 ∙ same b (omega arith) (omega arith) ∙ ap m (sym h.0)) (
      Links-frame m m' n size (b + size) (m p) e pos (λ a lo hi. same a (omega arith) (omega arith))
        h.1),
)

-- So do words of which some property of their places tells that they are kept.
pub Links-same :
    (m m' : Mem) (P : ℕ → Type 0) (f : ℕ) (bs : List ℕ) (e : ℕ)
    → ((a : ℕ) → P a → m' a ≡ m a)
    → All P bs
    → Links m f bs e
    → Links m' f bs e
Links-same m m' P f [] e same k h = h
Links-same m m' P f (x ∷ bs) e same k h =
    (h.0, rw (ap m' h.0 ∙ same x k.0 ∙ ap m (sym h.0)) (Links-same m m' P (m f) bs e same k.1 h.1))

end_of : (n size b : ℕ) → b + suc n * size ≡ b + size + n * size
end_of n size b = omega arith

-- One more block behind the last.
pub Links-snoc :
    (m : Mem) (n size b p e : ℕ)
    → Links m p (blocks n size b) (b + n * size)
    → m (b + n * size) ≡ e
    → Links m p (blocks (suc n) size b) e
Links-snoc m zero size b p e h last = (omega (arith, h), ap m h ∙ last)
Links-snoc m (suc n) size b p e h last = (
  h.0,
  Links-snoc m n size (b + size) (m p) e (rw (sym (end_of n size b)) h.1)
      (rw (sym (end_of n size b)) last),
)

module _ (header size : ℕ) (fits : header ≤ size) (pos : 0 < size) where
  pub link_blocks-other :
      (n b a : ℕ) (m : Mem) → (a < b) ⊎ (b + n * size ≤ a) → link_blocks n header size b m a ≡ m a
  unfolding link_blocks store memset
  link_blocks-other zero b a m out = refl
  link_blocks-other (suc n) b a m out =
      link_blocks-other n (b + size) a _ (ground (arith, out)) ∙ ground (arith, out)

  link_blocks-head : (n b : ℕ) (m : Mem) → link_blocks (suc n) header size b m b ≡ b + size
  unfolding link_blocks store
  link_blocks-head n b m = link_blocks-other n (b + size) b _ (inl (omega arith)) ∙ ground arith

  pub link_blocks-Links :
      (n b : ℕ) (m : Mem) → Links (link_blocks n header size b m) b (blocks n size b) (b + n * size)
  unfolding link_blocks
  link_blocks-Links zero b m = omega arith
  link_blocks-Links (suc n) b m =
      (refl, rw (link_blocks-head n b m, end_of n size b) (link_blocks-Links n (b + size) _))
