-- ===== src/Segment/Remove.antt =====
-- `remove_pages`, the loop of `cxl_segment_free` of src/segment.cpp, on the list of a queue.
use sosp_paper19_ae.Layout.{last_at}
use sosp_paper19_ae.PageQueue.Frame.{IsNoLink, cxl_page_queue_remove-other}
use mathlib.Core.Path.{subst}
use sosp_paper19_ae.Base.{
  ℕ, zero, suc, ◌+◌, ◌≤◌, ◌<◌, ◌≡◌, ◌≢◌, refl, sym, ap, ◌∙◌, List, [], ◌∷◌, ◌++◌, arith, ne→==,
  eq→==, ◌==◌, if◌then◌else◌, ℕ_discrete, Bool, true, false, All-map, All-both, All, ◌∉◌,
  AreDistinct,
}
use sosp_paper19_ae.Memory.{Mem}
use sosp_paper19_ae.Layout.Pointers.{segment_at, page_at}
use sosp_paper19_ae.PageQueue.{cxl_page_queue_remove}
use sosp_paper19_ae.PageQueue.Chain.{IsQueueAt, Holds}
use sosp_paper19_ae.PageQueue.Erase.{cxl_page_queue_remove-Holds, Holds-middle}
use sosp_paper19_ae.Segment.{remove_pages}
use sosp_paper19_ae.Segment.FreeQueue.{page_range}

-- Whether a list has a page, and the list without it.
abbrev pub elem : ℕ → List ℕ → Bool
elem p [] = false
elem p (y ∷ ys) = if y == p then true else elem p ys

abbrev pub erase : ℕ → List ℕ → List ℕ
erase p [] = []
erase p (y ∷ ys) = if y == p then ys else y ∷ erase p ys

-- Without the pages `i` to `i + n - 1` of segment `k`.
abbrev pub erase_range : ℕ → ℕ → ℕ → List ℕ → List ℕ
erase_range zero k i ys = ys
erase_range (suc n) k i ys = erase_range n k (i + 1) (erase (page_at k i) ys)

erase-split :
    (p : ℕ) (ys : List ℕ)
    → elem p ys ≡ true
    → (before after : List ℕ) × (ys ≡ before ++ p ∷ after) × (erase p ys ≡ before ++ after)
erase-split p [] h = absurd (ground arith)
erase-split p (y ∷ ys) h = elim (ℕ_discrete y p) [
  | yes e ↦ ([], ys, ap (λ z. z ∷ ys) e, rw (eq→== y p e) refl)
  | no ne ↦
      let (before, after, at, gone) = erase-split p ys (rw (ne→== y p ne) at h) in
      (y ∷ before, after, ap (λ l. y ∷ l) at, rw (ne→== y p ne) (ap (λ l. y ∷ l) gone))
]

elem-erase : (p x : ℕ) (ys : List ℕ) → x ≢ p → elem p ys ≡ true → elem p (erase x ys) ≡ true
elem-erase p x [] ne h = h
elem-erase p x (y ∷ ys) ne h = elim (ℕ_discrete y x) [
  | yes e ↦ rw (eq→== y x e) (rw (ne→== y p (λ e'. ne (sym e ∙ e'))) at h)
  | no ne' ↦ rw (ne→== y x ne') (elim (ℕ_discrete y p) [
    | yes e ↦ rw (eq→== y p e) refl
    | no ne'' ↦ rw (ne→== y p ne'') (elem-erase p x ys ne (rw (ne→== y p ne'') at h))
  ])
]

pub remove_pages-Holds :
    (n q k i : ℕ) (m : Mem) (ys : List ℕ)
    → IsQueueAt q
    → Holds m q ys
    → ((j : ℕ) → i ≤ j → j < i + n → elem (page_at k j) ys ≡ true)
    → Holds (remove_pages n q (segment_at k) i m) q (erase_range n k i ys)
unfolding remove_pages
remove_pages-Holds zero q k i m ys at h has = h
remove_pages-Holds (suc n) q k i m ys at h has =
    let (before, after, split, gone) =
      erase-split (page_at k i) ys (has i (omega arith) (omega arith)) in
    remove_pages-Holds n q k (i + 1) (cxl_page_queue_remove q (page_at k i) m)
      (erase (page_at k i) ys) at
      (subst (λ l. Holds (cxl_page_queue_remove q (page_at k i) m) q l) (sym gone)
        (cxl_page_queue_remove-Holds m q (page_at k i) at before after
          (subst (λ l. Holds m q l) split h)))
      (λ j lo hi.
        elem-erase (page_at k j) (page_at k i) ys (omega arith) (has j (omega arith) (omega arith)))

pub remove_pages-other :
    (n q k i a : ℕ) (m : Mem) (ys : List ℕ)
    → IsQueueAt q
    → Holds m q ys
    → ((j : ℕ) → i ≤ j → j < i + n → elem (page_at k j) ys ≡ true)
    → IsNoLink a
    → a ≢ q
    → a ≢ last_at q
    → remove_pages n q (segment_at k) i m a ≡ m a
unfolding remove_pages
remove_pages-other zero q k i a m ys at h has off ne ne' = refl
remove_pages-other (suc n) q k i a m ys at h has off ne ne' =
    let page : ℕ = page_at k i in
    let (before, after, split, gone) = erase-split page ys (has i (omega arith) (omega arith)) in
    let held = subst (λ l. Holds m q l) split h in
    let (is, prev, next, _, _) = Holds-middle m q page at before after held in
    remove_pages-other n q k (i + 1) a (cxl_page_queue_remove q page m) (erase page ys) at
      (subst (λ l. Holds (cxl_page_queue_remove q page m) q l) (sym gone)
        (cxl_page_queue_remove-Holds m q page at before after held))
      (λ j lo hi.
        elem-erase (page_at k j) page ys (omega arith) (has j (omega arith) (omega arith)))
      off ne ne'
    ∙ cxl_page_queue_remove-other m q page a prev next is at off ne ne'

erase-All : (P : ℕ → Type 0) (p : ℕ) (ys : List ℕ) → All P ys → All P (erase p ys)
erase-All P p [] h = tt
erase-All P p (y ∷ ys) h = elim (ℕ_discrete y p) [
  | yes e ↦ rw (eq→== y p e) h.1
  | no ne ↦ rw (ne→== y p ne) (h.0, erase-All P p ys h.1)
]

erase-AreDistinct :
    (p : ℕ) (ys : List ℕ) → AreDistinct ys → AreDistinct (erase p ys) × (p ∉ erase p ys)
erase-AreDistinct p [] d = (tt, tt)
erase-AreDistinct p (y ∷ ys) d = elim (ℕ_discrete y p) [
  | yes e ↦ rw (eq→== y p e) (d.1, subst (λ x. x ∉ ys) e d.0)
  | no ne ↦
      let r = erase-AreDistinct p ys d.1 in
      rw (ne→== y p ne) ((erase-All (λ x. y ≢ x) p ys d.0, r.0), ((λ e. ne (sym e)), r.1))
]

-- What is left is none of the pages that were taken out.
pub erase_range-All :
    (P : ℕ → Type 0) (n k i : ℕ) (ys : List ℕ)
    → AreDistinct ys
    → All P ys
    → All (λ x. P x × ((j : ℕ) → i ≤ j → j < i + n → x ≢ page_at k j)) (erase_range n k i ys)
erase_range-All P zero k i ys d h = All-map P _ ys (λ x k. (k, λ j lo hi. absurd (omega arith))) h
erase_range-All P (suc n) k i ys d h =
    let r = erase-AreDistinct (page_at k i) ys d in
    All-map _ _ (erase_range n k (i + 1) (erase (page_at k i) ys))
      (λ x t. (
        t.0.0,
        λ j lo hi. elim (ℕ_discrete j i) [
          | yes e ↦ rw e (λ q. t.0.1 (sym q))
          | no ne ↦ t.1 j (omega arith) (omega arith)
        ],
      ))
      (erase_range-All (λ x. P x × (page_at k i ≢ x)) n k (i + 1) (erase (page_at k i) ys) r.0
        (All-both P (λ x. page_at k i ≢ x) (erase (page_at k i) ys) (erase-All P (page_at k i) ys h)
          r.1))

-- The pages of a segment in order are in a list that starts with them, and page 0 is not.
pub elem-page_range :
    (n k i j : ℕ) (ys : List ℕ)
    → i ≤ j
    → j < i + n
    → elem (page_at k j) (page_range n k i ++ ys) ≡ true
elem-page_range zero k i j ys lo hi = absurd (omega arith)
elem-page_range (suc n) k i j ys lo hi = elim (ℕ_discrete j i) [
  | yes e ↦ rw (eq→== (page_at k i) (page_at k j) (omega (arith, e))) refl
  | no ne ↦
      rw (ne→== (page_at k i) (page_at k j) (omega arith))
        (elem-page_range n k (i + 1) j ys (omega arith) (omega arith))
]

-- Without all of its pages a range is empty.
pub erase_range-all : (n k i : ℕ) → erase_range n k i (page_range n k i ++ []) ≡ []
erase_range-all zero k i = refl
erase_range-all (suc n) k i =
    rw (eq→== (page_at k i) (page_at k i) refl) (erase_range-all n k (i + 1))

pub page_range-out :
    (n k i : ℕ) (ys : List ℕ) → 0 < i → page_at k 0 ∉ ys → page_at k 0 ∉ (page_range n k i ++ ys)
page_range-out zero k i ys pos out = out
page_range-out (suc n) k i ys pos out =
    ((λ e. omega (arith, e)), page_range-out n k (i + 1) ys (omega arith) out)
