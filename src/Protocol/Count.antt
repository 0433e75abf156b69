-- ===== src/Protocol/Count.antt =====
-- How many threads stand where in their updates of an object.
use sosp_paper19_ae.Base.{
  ℕ, zero, suc, ◌+◌, ◌≤◌, ◌<◌, ◌≡◌, refl, ap, arith, ◌==◌, if◌then◌else◌, ℕ_discrete, eq→==, ne→==,
}
use sosp_paper19_ae.Layout.{max_thread}
use sosp_paper19_ae.Protocol.{
  link, unlink, Pc, start, loaded, noted, logged, counted, System, update, Info, idle,
}

-- 1 for two equal objects.
abbrev pub hit : ℕ → ℕ → ℕ
hit o o' = if o' == o then 1 else 0

-- A thread that has counted a link of the object and not written the reference, and likewise of an
-- unlink.
abbrev pub linking : ℕ → Pc → ℕ
linking o (counted link o' e) = hit o o'
linking o _ = 0

abbrev pub unlinking : ℕ → Pc → ℕ
unlinking o (counted unlink o' e) = hit o o'
unlinking o _ = 0

-- A thread that is in an unlink of the object and has not cleared its reference.
abbrev pub dropping : ℕ → Pc → ℕ
dropping o (start unlink o') = hit o o'
dropping o (loaded unlink o' w e) = hit o o'
dropping o (noted unlink o' w e) = hit o o'
dropping o (logged unlink o' w e) = hit o o'
dropping o (counted unlink o' e) = hit o o'
dropping o _ = 0

-- Over the threads below `n`.
unfoldable pub sum : ℕ → (Pc → ℕ) → (ℕ → Pc) → ℕ
sum zero g pc = 0
sum (suc n) g pc = sum n g pc + g (pc n)

abbrev pub all : (Pc → ℕ) → System → ℕ
all g s = sum max_thread g s.pc

pub sum-update_other :
    (n t : ℕ) (g : Pc → ℕ) (pc : ℕ → Pc) (p : Pc) → n ≤ t → sum n g (update pc t p) ≡ sum n g pc
unfolding sum
sum-update_other zero t g pc p le = refl
sum-update_other (suc n) t g pc p le =
    rw (sum-update_other n t g pc p (omega arith), ne→== n t (omega arith)) refl

pub sum-update :
    (n t : ℕ) (g : Pc → ℕ) (pc : ℕ → Pc) (p : Pc)
    → t < n
    → sum n g (update pc t p) + g (pc t) ≡ sum n g pc + g p
unfolding sum
sum-update zero t g pc p lt = absurd (omega arith)
sum-update (suc n) t g pc p lt = elim (ℕ_discrete n t) [
  | yes e ↦ rw (e, sum-update_other t t g pc p (omega arith), eq→== t t refl) (omega arith)
  | no ne ↦ rw (ne→== n t ne) (omega (arith, sum-update n t g pc p (omega arith)))
]

pub moved :
    {t : ℕ} {a : Pc} (s : System) (p : Pc) (g : Pc → ℕ)
    → t < max_thread
    → s.pc t ≡ a
    → sum max_thread g (update s.pc t p) + g a ≡ all g s + g p
moved {t} s p g few at = rw (ap g at) at (sum-update max_thread t g s.pc p few)

pub sum_mono :
    (n : ℕ) (f g : Pc → ℕ) (pc : ℕ → Pc) → ((p : Pc) → f p ≤ g p) → sum n f pc ≤ sum n g pc
unfolding sum
sum_mono zero f g pc le = omega arith
sum_mono (suc n) f g pc le = omega (arith, sum_mono n f g pc le, le (pc n))

pub unlinking-le-dropping : (o : ℕ) (p : Pc) → unlinking o p ≤ dropping o p
unlinking-le-dropping o (counted unlink o' e) = omega arith
unlinking-le-dropping o _ = omega arith

-- A thread that is about to count an unlink is one more of those that drop a reference.
pub dropping_more :
    {t : ℕ} (s : System) (o : ℕ) (w : Info) (e : ℕ)
    → t < max_thread
    → s.pc t ≡ logged unlink o w e
    → all (unlinking o) s < all (dropping o) s
dropping_more {t} s o w e few at = ground (
  arith,
  moved s idle (unlinking o) few at,
  moved s idle (dropping o) few at,
  sum_mono max_thread (unlinking o) (dropping o) (update s.pc t idle) (unlinking-le-dropping o),
)
