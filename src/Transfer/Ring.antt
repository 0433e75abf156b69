-- ===== src/Transfer/Ring.antt =====
-- The list of objects that a message queue holds.
use sosp_paper19_ae.Base.{
  ℕ, ◌+◌, ◌%◌, ◌<◌, ◌≡◌, refl, ◌∙◌, ◌≢◌, List, sym, ne→==, [], ◌∷◌, ◌++◌, arith, ◌==◌, length, ◌≤◌,
}
use sosp_paper19_ae.Memory.{Mem}
use sosp_paper19_ae.Layout.{message_buffer_size, end_at, buffer_at}
use sosp_paper19_ae.Transfer.{is_full, nothing_sent}

-- From slot `i` on the queue at `q` holds the objects `xs`, up to slot `e`.
abbrev pub Contains : Mem → ℕ → ℕ → List ℕ → ℕ → Type 0
Contains m q i [] e = i ≡ e
Contains m q i (x ∷ xs) e =
    (i < message_buffer_size)
    × (m (buffer_at q i) ≡ x)
    × (x ≢ 0)
    × Contains m q ((i + 1) % message_buffer_size) xs e

-- The queue at `q` holds the objects `xs`, first to last. One slot is always free.
pub record IsRing (m : Mem) (q : ℕ) (xs : List ℕ) : Type 0 where
  pub start_lt : m q < message_buffer_size
  pub room : length xs < message_buffer_size
  pub holds : Contains m q (m q) xs (m (end_at q))

pub Contains-end :
    (m : Mem) (q i : ℕ) (xs : List ℕ) (e : ℕ)
    → i < message_buffer_size
    → Contains m q i xs e
    → e ≡ (i + length xs) % message_buffer_size
Contains-end m q i [] e lt h = omega arith
Contains-end m q i (x ∷ xs) e lt h =
    omega (arith, Contains-end m q ((i + 1) % message_buffer_size) xs e (omega arith) h.3)

-- The contents depend on the slots in use alone.
pub Contains-frame :
    (m m' : Mem) (q i : ℕ) (xs : List ℕ) (e : ℕ)
    → i < message_buffer_size
    → length xs < message_buffer_size
    → ((j : ℕ) → j < message_buffer_size → j ≢ e → m' (buffer_at q j) ≡ m (buffer_at q j))
    → Contains m q i xs e
    → Contains m' q i xs e
Contains-frame m m' q i [] e lt room same h = h
Contains-frame m m' q i (x ∷ xs) e lt room same h = (
  h.0,
  same i h.0 (λ at. absurd (omega (arith, Contains-end m q i (x ∷ xs) e lt h))) ∙ h.1,
  h.2,
  Contains-frame m m' q ((i + 1) % message_buffer_size) xs e (omega arith) (omega arith) same h.3,
)

-- Nor do they depend on the slot `d` that the queue has left behind, `k` slots ago.
pub Contains-frame_behind :
    (m m' : Mem) (q d k i : ℕ) (xs : List ℕ) (e : ℕ)
    → d < message_buffer_size
    → 1 ≤ k
    → i ≡ (d + k) % message_buffer_size
    → k + length xs < message_buffer_size
    → ((j : ℕ) → j < message_buffer_size → j ≢ e → j ≢ d → m' (buffer_at q j) ≡ m (buffer_at q j))
    → Contains m q i xs e
    → Contains m' q i xs e
Contains-frame_behind m m' q d k i [] e lt low at room same h = h
Contains-frame_behind m m' q d k i (x ∷ xs) e lt low at room same h = (
  h.0,
  same i h.0 (λ at. absurd (omega (arith, Contains-end m q i (x ∷ xs) e h.0 h))) (omega arith)
      ∙ h.1,
  h.2,
  Contains-frame_behind m m' q d (k + 1) ((i + 1) % message_buffer_size) xs e lt (omega arith)
      (omega arith) (omega arith) same h.3,
)

pub Contains-append :
    (m : Mem) (q i : ℕ) (xs : List ℕ) (e x : ℕ)
    → e < message_buffer_size
    → Contains m q i xs e
    → m (buffer_at q e) ≡ x
    → x ≢ 0
    → Contains m q i (xs ++ x ∷ []) ((e + 1) % message_buffer_size)
Contains-append m q i [] e x lt h at ne = (rw h lt, rw h at, ne, rw h refl)
Contains-append m q i (y ∷ xs) e x lt h at ne =
    (h.0, h.1, h.2, Contains-append m q ((i + 1) % message_buffer_size) xs e x lt h.3 at ne)

module _ {m : Mem} {q : ℕ} {xs : List ℕ} (h : IsRing m q xs) where
  pub IsRing-end : m (end_at q) ≡ (m q + length xs) % message_buffer_size
  IsRing-end = Contains-end m q (m q) xs (m (end_at q)) h.start_lt h.holds

  -- The test of `sent_to` succeeds exactly when the queue holds 15 objects.
  pub is_full-length : is_full (m q) (m (end_at q)) ≡ (length xs == 15)
  unfolding is_full
  is_full-length = ground (arith, IsRing-end, h.start_lt, h.room)

-- The test of `cxl_unwrap` succeeds exactly when the queue is empty.
pub nothing_sent-length :
    {m : Mem} {q : ℕ} (xs : List ℕ) → IsRing m q xs → nothing_sent q m ≡ (length xs == 0)
unfolding nothing_sent
nothing_sent-length [] h = ground (arith, h.holds)
nothing_sent-length {m} {q} (x ∷ xs) h =
    rw
      (
        ne→== (m q) (m (end_at q)) (λ e. absurd (omega (arith, e, IsRing-end h, h.room))),
        ne→== (m (buffer_at q (m q))) 0 (λ e. h.holds.2 (sym h.holds.1 ∙ e)),
      )
      (sym (ne→== (length (x ∷ xs)) 0 (omega arith)))
