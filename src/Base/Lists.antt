-- ===== src/Base/Lists.antt =====
-- Lists of offsets: length over the native numbers, and membership as a predicate by recursion.
use Prim.Native.Nat.{ℕ, suc, ◌+◌}
use mathlib.Core.Path.{◌≡◌, sym}
use mathlib.Core.Logic.{◌≢◌}
use mathlib.Core.List.{List, [], ◌∷◌, ◌++◌}
use native.Mathlib.Omega.{arith}

abbrev pub length {ℓ} : {A : Type ℓ} → List A → ℕ
length [] = 0
length (x ∷ xs) = suc (length xs)

pub length-append {ℓ} : {A : Type ℓ} (xs ys : List A) → length (xs ++ ys) ≡ length xs + length ys
length-append [] ys = omega arith
length-append (x ∷ xs) ys = omega (arith, length-append xs ys)

-- Every element has the property.
abbrev pub All {ℓ κ} : {A : Type ℓ} → (A → Type κ) → List A → Type κ
All P [] = Unit
All P (x ∷ xs) = P x × All P xs

-- `a` is not an element.
infix 40 ◌∉◌
abbrev pub ◌∉◌ : ℕ → List ℕ → Type 0
a ∉ xs = All (λ x. a ≢ x) xs

-- No element twice.
abbrev pub AreDistinct : List ℕ → Type 0
AreDistinct [] = Unit
AreDistinct (x ∷ xs) = (x ∉ xs) × AreDistinct xs

pub All-append {ℓ κ} :
    {A : Type ℓ} (P : A → Type κ) (xs ys : List A) → All P (xs ++ ys) → All P xs × All P ys
All-append P [] ys h = (tt, h)
All-append P (x ∷ xs) ys h = let r = All-append P xs ys h.1 in ((h.0, r.0), r.1)

pub append-All {ℓ κ} :
    {A : Type ℓ} (P : A → Type κ) (xs ys : List A) → All P xs → All P ys → All P (xs ++ ys)
append-All P [] ys hx hy = hy
append-All P (x ∷ xs) ys hx hy = (hx.0, append-All P xs ys hx.1 hy)

pub All-map {ℓ κ μ} :
    {A : Type ℓ} (P : A → Type κ) (Q : A → Type μ) (xs : List A)
    → ((a : A) → P a → Q a)
    → All P xs
    → All Q xs
All-map P Q [] f h = tt
All-map P Q (x ∷ xs) f h = (f x h.0, All-map P Q xs f h.1)

pub All-both {ℓ κ μ} :
    {A : Type ℓ} (P : A → Type κ) (Q : A → Type μ) (xs : List A)
    → All P xs
    → All Q xs
    → All (λ a. P a × Q a) xs
All-both P Q [] h k = tt
All-both P Q (x ∷ xs) h k = ((h.0, k.0), All-both P Q xs h.1 k.1)

-- Lists without a common element.
pub apart_sym : (xs ys : List ℕ) → All (λ y. y ∉ xs) ys → All (λ x. x ∉ ys) xs
apart_sym [] ys h = tt
apart_sym (x ∷ xs) ys h = (
  All-map (λ y. y ∉ (x ∷ xs)) (λ y. x ≢ y) ys (λ y k e. k.0 (sym e)) h,
  apart_sym xs ys (All-map (λ y. y ∉ (x ∷ xs)) (λ y. y ∉ xs) ys (λ y k. k.1) h),
)

-- The others are not an element of a list that has none twice.
pub AreDistinct-middle :
    (p : ℕ) (ys zs : List ℕ) → AreDistinct (ys ++ p ∷ zs) → All (λ w. w ≢ p) (ys ++ zs)
AreDistinct-middle p [] zs h = All-map (λ w. p ≢ w) (λ w. w ≢ p) zs (λ w k e. k (sym e)) h.0
AreDistinct-middle p (y ∷ ys) zs h =
    ((All-append (λ w. y ≢ w) ys (p ∷ zs) h.0).1.0, AreDistinct-middle p ys zs h.1)
