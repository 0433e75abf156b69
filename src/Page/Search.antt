-- ===== src/Page/Search.antt =====
-- `cxl_page_queue_find_free_ex` of src/page.cpp while no other thread has freed a block.
use mathlib.Core.Path.{subst}
use mathlib.Core.Option.{none-ne-some, some-injective}
use sosp_paper19_ae.Base.{
  ℕ, zero, suc, ◌<◌, ◌≡◌, ◌≢◌, refl, List, [], ◌∷◌, length, arith, All, ne→==, ◌==◌, if◌then◌else◌,
  Option, none, some, ℕ_discrete, ◌⊎◌, inl, inr,
}
use sosp_paper19_ae.Memory.{Mem, store, Run, ok}
use sosp_paper19_ae.Layout.{
  local_free_at, next_at, last_at, sas_thread_free_at, sas_of_segment, cxl_ptr_segment,
}
use sosp_paper19_ae.Handle.{Shm}
use sosp_paper19_ae.PageQueue.Chain.{Chain, Holds, IsPage}
use sosp_paper19_ae.Page.{
  cxl_thread_free_collect, cxl_page_free_collect, take_local_free, find_free,
  cxl_page_queue_find_free_ex, cxl_page_fresh,
}

-- No block of the page's segment has been freed by another thread.
abbrev pub IsQuiet : Mem → ℕ → Type 0
IsQuiet m p = m (sas_thread_free_at (sas_of_segment (cxl_ptr_segment p))) ≡ 0

-- The first page that has a block in one of its two lists.
abbrev pub first_free : Mem → List ℕ → Option ℕ
first_free m [] = none
first_free m (p ∷ ps) =
    if m p == 0 then (if m (local_free_at p) == 0 then first_free m ps else some p) else some p

abbrev found : Mem → Option ℕ → Run ℕ
found m none = ok 0 m
found m (some p) = ok p (take_local_free p m)

-- The page `p` has a free block: its `free` list is as it was, or it was empty, and the `local_free`
-- list has become the `free` list and is empty now. No other word has changed.
pub record IsUsable (m m' : Mem) (p : ℕ) : Type 0 where
  pub page : IsPage p
  pub some_left : m' p ≢ 0
  pub own : m p ≢ 0 → (m' p ≡ m p) × (m' (local_free_at p) ≡ m (local_free_at p))
  pub moved : m p ≡ 0 → (m' p ≡ m (local_free_at p)) × (m' (local_free_at p) ≡ 0)
  pub others : (a : ℕ) → a ≢ p → a ≢ local_free_at p → m' a ≡ m a

free_collect-quiet :
    (fuel p : ℕ) (m : Mem)
    → IsQuiet m p
    → cxl_page_free_collect fuel p m ≡ ok tt (take_local_free p m)
unfolding cxl_page_free_collect cxl_thread_free_collect
free_collect-quiet fuel p m quiet = rw quiet refl

module _ (m : Mem) where
  take-free : (p : ℕ) → m p ≢ 0 → take_local_free p m ≡ m
  unfolding take_local_free
  take-free p ne = elim (ℕ_discrete (m (local_free_at p)) 0) [
    | yes e ↦ rw e refl
    | no ne' ↦ rw (ne→== (m (local_free_at p)) 0 ne', ne→== (m p) 0 ne) refl
  ]

  take-none : (p : ℕ) → m (local_free_at p) ≡ 0 → take_local_free p m ≡ m
  unfolding take_local_free
  take-none p e = rw e refl

  pub take-local :
      (p : ℕ) → m p ≡ 0 → m (local_free_at p) ≢ 0 → take_local_free p m p ≡ m (local_free_at p)
  unfolding take_local_free store
  take-local p e ne = rw (ne→== (m (local_free_at p)) 0 ne, e) (ground arith)

  find_free-found :
      (fuel rounds before f : ℕ) (ps : List ℕ) (last : ℕ)
      → length ps < rounds
      → All (IsQuiet m) ps
      → Chain m before f ps last
      → find_free fuel rounds f m ≡ found m (first_free m ps)
  unfolding find_free
  find_free-found fuel zero before f ps last lt quiet c = absurd (omega arith)
  find_free-found fuel (suc rounds) before f [] last lt quiet c = rw c.0 refl
  find_free-found fuel (suc rounds) before f (p ∷ ps) last lt quiet c =
      rw (c.0, ne→== p 0 (omega (arith, c.1.high)), free_collect-quiet fuel p m quiet.0)
        (elim (ℕ_discrete (m p) 0) [
          | no ne ↦ rw (take-free p ne, ne→== (m p) 0 ne) (rw (take-free p ne) refl)
          | yes e ↦ elim (ℕ_discrete (m (local_free_at p)) 0) [
            | no ne ↦ rw (take-local p e ne, e, ne→== (m (local_free_at p)) 0 ne) refl
            | yes e' ↦
                rw (take-none p e', e, e')
                  (find_free-found fuel rounds p (m (next_at p)) ps last (omega arith) quiet.1 c.4)
          ]
        ])

  take-IsUsable :
      (p : ℕ) → IsPage p → (m p ≡ 0 → m (local_free_at p) ≢ 0) → IsUsable m (take_local_free p m) p
  unfolding take_local_free store
  take-IsUsable p is some_local = record {
    page = is;
    some_left = ground (arith, some_local);
    own = λ ne. ground arith;
    moved = λ e. let ne = some_local e in ground arith;
    others = λ a ne ne'. ground arith;
  }

  -- The page that is found.
  first_free-IsUsable :
      (p before f : ℕ) (ps : List ℕ) (last : ℕ)
      → Chain m before f ps last
      → first_free m ps ≡ some p
      → IsUsable m (take_local_free p m) p
  first_free-IsUsable p before f [] last c h = absurd (none-ne-some p h)
  first_free-IsUsable p before f (x ∷ ps) last c h = elim (ℕ_discrete (m x) 0) [
    | no ne ↦
        subst (λ y. IsUsable m (take_local_free y m) y)
          (some-injective x p (rw (ne→== (m x) 0 ne) at h))
          (take-IsUsable x c.1 (λ e. absurd (ne e)))
    | yes e ↦ elim (ℕ_discrete (m (local_free_at x)) 0) [
      | no ne ↦
          subst (λ y. IsUsable m (take_local_free y m) y)
            (some-injective x p (rw (e, ne→== (m (local_free_at x)) 0 ne) at h))
            (take-IsUsable x c.1 (λ e'. ne))
      | yes e' ↦ first_free-IsUsable p x (m (next_at x)) ps last c.4 (rw (e, e') at h)
    ]
  ]

  -- A page that has a free block by then, or a new page.
  abbrev pub Outcome : ℕ → Shm → ℕ → List ℕ → Type 0
  Outcome fuel s pq ps =
      ((first_free m ps ≡ none) × (cxl_page_queue_find_free_ex fuel s pq m ≡ cxl_page_fresh s pq m))
      ⊎ ((p : ℕ) × (first_free m ps ≡ some p)
          × ((m' : Mem) × (cxl_page_queue_find_free_ex fuel s pq m ≡ ok p m') × IsUsable m m' p))

  outcome :
      (fuel : ℕ) (s : Shm) (pq : ℕ) (ps : List ℕ)
      → Holds m pq ps
      → (r : Option ℕ) → first_free m ps ≡ r
      → find_free fuel fuel (m pq) m ≡ found m (first_free m ps)
      → Outcome fuel s pq ps
  unfolding cxl_page_queue_find_free_ex
  outcome fuel s pq ps h none e run = inl (e, rw (run, e) refl)
  outcome fuel s pq ps h (some p) e run =
      let usable = first_free-IsUsable p 0 (m pq) ps (m (last_at pq)) h e in
      inr (
        p,
        e,
        (
          take_local_free p m,
          rw (run, e, ne→== p 0 (omega (arith, usable.page.high))) refl,
          usable,
        ),
      )

  -- While no other thread has freed a block, the search of `cxl_page_queue_find_free_ex` ends when its
  -- fuel exceeds the number of pages in the queue, and does what the reference `first_free` says: it
  -- returns the first page that has a block in its `free` or its `local_free` list, and makes a new
  -- page if there is none. If `free` was empty, the `local_free` list has become the `free` list of
  -- that page and is empty; no other word changes, and none if `free` was not.
  pub cxl_page_queue_find_free_ex_lem :
      (fuel : ℕ) (s : Shm) (pq : ℕ) (ps : List ℕ)
      → Holds m pq ps
      → length ps < fuel
      → All (IsQuiet m) ps
      → Outcome fuel s pq ps
  cxl_page_queue_find_free_ex_lem fuel s pq ps h lt quiet =
      outcome fuel s pq ps h (first_free m ps) refl
        (find_free-found fuel fuel 0 (m pq) ps (m (last_at pq)) lt quiet h)
