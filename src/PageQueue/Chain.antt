-- ===== src/PageQueue/Chain.antt =====
-- The list of pages that a queue stands for.
use sosp_paper19_ae.Base.{
  ◌∙◌, sym, ℕ, ◌+◌, ◌-◌, ◌*◌, ◌%◌, ◌≡◌, ◌≢◌, ◌≤◌, ◌<◌, List, [], ◌∷◌, ◌++◌, arith, All, ◌∉◌,
}
use sosp_paper19_ae.Memory.{Mem}
use sosp_paper19_ae.Layout.{
  next_at, prev_at, last_at, segments_area_start, segment_size, cxl_page_size, pages_per_segment,
}

-- The offset of a page descriptor in the area of the segments.
pub record IsPage (p : ℕ) : Type 0 where
  pub high : segments_area_start ≤ p
  pub low : 8 ≤ p % segment_size
  pub within : p % segment_size < 8 + cxl_page_size * pages_per_segment
  pub whole : (p % segment_size - 8) % cxl_page_size ≡ 0

-- A queue lies in a thread-local state, below the segments.
abbrev pub IsQueueAt : ℕ → Type 0
IsQueueAt q = q + 16 ≤ segments_area_start

-- From `p`, whose `prev` is `before`, the `next` fields lead through `xs`, and the last is `last`.
abbrev pub Chain : Mem → ℕ → ℕ → List ℕ → ℕ → Type 0
Chain m before p [] last = (p ≡ 0) × (last ≡ before)
Chain m before p (x ∷ xs) last =
    (p ≡ x) × IsPage x × (m (prev_at x) ≡ before) × (x ∉ xs) × Chain m x (m (next_at x)) xs last

-- The queue at `q` holds the pages `xs`, first to last.
abbrev pub Holds : Mem → ℕ → List ℕ → Type 0
Holds m q xs = Chain m 0 (m q) xs (m (last_at q))

-- Fields of two pages are different places.
pub page_apart : {x y : ℕ} (d : ℕ) → IsPage x → IsPage y → d < cxl_page_size → x ≡ y + d → d ≡ 0
page_apart d p q h e = omega arith

-- A chain depends only on the `next` and `prev` fields of its pages.
pub Chain-frame :
    (m m' : Mem) (before p : ℕ) (xs : List ℕ) (last : ℕ)
    → All (λ x. (m' (next_at x) ≡ m (next_at x)) × (m' (prev_at x) ≡ m (prev_at x))) xs
    → Chain m before p xs last
    → Chain m' before p xs last
Chain-frame m m' before p [] last same h = h
Chain-frame m m' before p (x ∷ xs) last same h = (
  h.0,
  h.1,
  same.0.1 ∙ h.2,
  h.3,
  rw same.0.0 (Chain-frame m m' x (m (next_at x)) xs last same.1 h.4),
)

-- The last page of a chain is no page outside it.
pub last-ne :
    (m : Mem) (before p : ℕ) (xs : List ℕ) (last y : ℕ)
    → Chain m before p xs last
    → y ≢ before
    → y ∉ xs
    → last ≢ y
last-ne m before p [] last y h ne out = λ e. ne (sym e ∙ h.1)
last-ne m before p (x ∷ xs) last y h ne out = last-ne m x (m (next_at x)) xs last y h.4 out.0 out.1

-- Nor is the first page.
pub head-ne :
    (m : Mem) (before p : ℕ) (xs : List ℕ) (last y : ℕ)
    → Chain m before p xs last
    → y ≢ 0
    → y ∉ xs
    → p ≢ y
head-ne m before p [] last y h ne out = λ e. ne (sym e ∙ h.0)
head-ne m before p (x ∷ xs) last y h ne out = λ e. out.0 (sym e ∙ h.0)

module _ (m : Mem) (page : ℕ) (zs : List ℕ) (last : ℕ) where
  -- The page before `page` is none of those outside the chain.
  pub prev-ne :
      (before p : ℕ) (ys : List ℕ) (y : ℕ)
      → Chain m before p (ys ++ page ∷ zs) last
      → y ≢ before
      → y ∉ (ys ++ page ∷ zs)
      → m (prev_at page) ≢ y
  prev-ne before p [] y h ne out = λ e. ne (sym e ∙ h.2)
  prev-ne before p (x ∷ ys) y h ne out = prev-ne x (m (next_at x)) ys y h.4 out.0 out.1

  pub next-ne :
      (before p : ℕ) (ys : List ℕ) (y : ℕ)
      → Chain m before p (ys ++ page ∷ zs) last
      → y ≢ 0
      → y ∉ (ys ++ page ∷ zs)
      → m (next_at page) ≢ y
  next-ne before p [] y h ne out = head-ne m page (m (next_at page)) zs last y h.4 ne out.1
  next-ne before p (x ∷ ys) y h ne out = next-ne x (m (next_at x)) ys y h.4 ne out.1
