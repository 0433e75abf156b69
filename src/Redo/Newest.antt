-- ===== src/Redo/Newest.antt =====
-- The log that `redo_ref_cnt` picks is the one of the highest era.
use sosp_paper19_ae.Base.{
  ℕ, zero, suc, ◌≤◌, ◌<◌, ◌≡◌, refl, ap, ◌∙◌, ◌≢◌, inl, inr, arith, ℕ_discrete, ltb, Bool-cases,
}
use sosp_paper19_ae.Memory.{Mem}
use sosp_paper19_ae.Layout.{redo_cacheline_cnt, redo_at}
use sosp_paper19_ae.Redo.{log_era, newest_log}

-- Log `k` is newer than every other.
pub record IsNewest (m : Mem) (tls k : ℕ) : Type 0 where
  pub in_range : k < redo_cacheline_cnt
  pub newer :
      (j : ℕ)
      → j < redo_cacheline_cnt
      → j ≢ k
      → log_era m (redo_at tls j) < log_era m (redo_at tls k)

-- What the loop has found after `n` logs: one of the logs, as new as each of those.
Best : Mem → ℕ → ℕ → Type 0
Best m tls n =
    (j : ℕ) × (j < redo_cacheline_cnt)
    × (newest_log n tls m ≡ redo_at tls j)
    × ((i : ℕ) → i < n → log_era m (redo_at tls i) ≤ log_era m (redo_at tls j))

module _ (m : Mem) (tls : ℕ) where
  newest_log-Best : (n : ℕ) → n ≤ redo_cacheline_cnt → Best m tls n
  unfolding newest_log Best
  newest_log-Best zero le = (0, omega arith, refl, λ i lt. elim lt [ ])
  newest_log-Best (suc n) le =
      let (j, few, at, best) = newest_log-Best n (omega arith) in
      elim (Bool-cases (ltb (log_era m (newest_log n tls m)) (log_era m (redo_at tls n)))) [
        | inl newer ↦ (
          n,
          le,
          rw newer,
          λ i lt. elim (ℕ_discrete i n) [
            | yes e ↦ rw e (omega arith)
            | no ne ↦ ground (arith, best i (omega arith))
          ],
        )
        | inr older ↦ (
          j,
          few,
          rw older at,
          λ i lt. elim (ℕ_discrete i n) [
            | yes e ↦ rw e (ground arith)
            | no ne ↦ best i (omega arith)
          ],
        )
      ]

  pub newest_log-eq :
      (k : ℕ) → IsNewest m tls k → newest_log redo_cacheline_cnt tls m ≡ redo_at tls k
  unfolding Best
  newest_log-eq k h =
      let (j, few, at, best) = newest_log-Best redo_cacheline_cnt (omega arith) in
      elim (ℕ_discrete j k) [
        | yes e ↦ at ∙ ap (redo_at tls) e
        | no ne ↦ absurd (omega (arith, best k h.in_range, h.newer j few ne))
      ]
