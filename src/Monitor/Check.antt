-- ===== src/Monitor/Check.antt =====
-- What `check_recovery` of src/recovery.cpp decides.
use sosp_paper19_ae.Base.{
  ℕ, zero, suc, ◌+◌, ◌≤◌, ◌<◌, ◌≡◌, refl, true, arith, ◌==◌, Bool-cases, eq→==, ==→eq, ◌↔◌, inl,
  inr,
}
use sosp_paper19_ae.Memory.{Mem, lo32}
use sosp_paper19_ae.Layout.{max_thread, max_segment_num, packed_id_at, tls_at, sas_at}
use sosp_paper19_ae.Segment.Claim.{at-next}
use sosp_paper19_ae.Monitor.{no_thread_from, no_segment_from, check_recovery}

module _ (m : Mem) where
  no_thread-all :
      (n i : ℕ)
      → no_thread_from n i m ≡ true
      → (j : ℕ) → i ≤ j
      → j < i + n
      → m (packed_id_at (tls_at j)) ≡ 0
  unfolding no_thread_from
  no_thread-all zero i h = λ j lo hi. absurd (omega arith)
  no_thread-all (suc n) i h = elim (Bool-cases (m (packed_id_at (tls_at i)) == 0)) [
    | inl free ↦
        at-next {P = λ j. j < i + suc n → m (packed_id_at (tls_at j)) ≡ 0}
          (λ hi. ==→eq (m (packed_id_at (tls_at i))) 0 free)
          (λ j lo hi. no_thread-all n (i + 1) (rw free at h) j lo (omega arith))
    | inr taken ↦ absurd (ground (arith, h, taken))
  ]

  all-no_thread :
      (n i : ℕ)
      → ((j : ℕ) → i ≤ j → j < i + n → m (packed_id_at (tls_at j)) ≡ 0)
      → no_thread_from n i m ≡ true
  unfolding no_thread_from
  all-no_thread zero i h = refl
  all-no_thread (suc n) i h =
      rw (eq→== (m (packed_id_at (tls_at i))) 0 (h i (omega arith) (omega arith)))
        (all-no_thread n (i + 1) (λ j lo hi. h j (omega arith) (omega arith)))

  no_segment-all :
      (n i : ℕ)
      → no_segment_from n i m ≡ true
      → (j : ℕ) → i ≤ j
      → j < i + n
      → lo32 (m (sas_at j)) ≡ 0
  unfolding no_segment_from
  no_segment-all zero i h = λ j lo hi. absurd (omega arith)
  no_segment-all (suc n) i h = elim (Bool-cases (lo32 (m (sas_at i)) == 0)) [
    | inl free ↦
        at-next {P = λ j. j < i + suc n → lo32 (m (sas_at j)) ≡ 0}
          (λ hi. ==→eq (lo32 (m (sas_at i))) 0 free)
          (λ j lo hi. no_segment-all n (i + 1) (rw free at h) j lo (omega arith))
    | inr taken ↦ absurd (ground (arith, h, taken))
  ]

  all-no_segment :
      (n i : ℕ)
      → ((j : ℕ) → i ≤ j → j < i + n → lo32 (m (sas_at j)) ≡ 0)
      → no_segment_from n i m ≡ true
  unfolding no_segment_from
  all-no_segment zero i h = refl
  all-no_segment (suc n) i h =
      rw (eq→== (lo32 (m (sas_at i))) 0 (h i (omega arith) (omega arith)))
        (all-no_segment n (i + 1) (λ j lo hi. h j (omega arith) (omega arith)))

  -- `check_recovery` says yes exactly when no thread-local state has an id and no allocation state
  -- of a segment belongs to a thread.
  pub check_recovery_iff : (check_recovery m ≡ true) ↔ (
      ((j : ℕ) → j < max_thread → m (packed_id_at (tls_at j)) ≡ 0)
      × ((j : ℕ) → j < max_segment_num → lo32 (m (sas_at j)) ≡ 0))
  unfolding check_recovery
  check_recovery_iff = (
    (λ h. elim (Bool-cases (no_thread_from max_thread 0 m)) [
      | inl none_left ↦ (
        (λ j lt. no_thread-all max_thread 0 none_left j (omega arith) (omega arith)),
        (λ j lt.
            no_segment-all max_segment_num 0 (rw none_left at h) j (omega arith) (omega arith)),
      )
      | inr left ↦ absurd (ground (arith, h, left))
    ]),
    (λ h.
        rw (all-no_thread max_thread 0 (λ j lo hi. h.0 j (omega arith)))
          (all-no_segment max_segment_num 0 (λ j lo hi. h.1 j (omega arith)))),
  )
