-- ===== src/Segment/Claim.antt =====
-- Which segment `cxl_segment_alloc` claims.
use sosp_paper19_ae.Base.{
  ℕ_discrete, ℕ, zero, suc, ◌+◌, ◌*◌, ◌≤◌, ◌<◌, ◌≡◌, refl, ◌≢◌, ◌⊎◌, inl, inr, arith, none, some,
  ltb, ◌==◌, Bool-cases, ==→eq, ==→ne,
}
use sosp_paper19_ae.Memory.{Mem, ok}
use sosp_paper19_ae.Layout.{segment_size, segments_area_start, sas_at}
use sosp_paper19_ae.Handle.{Shm, sas_thread_id, set_sas_thread_id}
use sosp_paper19_ae.Segment.{claim_segment, segment_fuel}

-- Segment `j` ends within the region.
abbrev pub Fits : Shm → ℕ → Type 0
Fits s j = segments_area_start + (j + 1) * segment_size ≤ s.size

-- What holds at `i` and behind it holds from `i` on.
pub at-next {ℓ} :
    {P : ℕ → Type ℓ} {i : ℕ} → P i → ((j : ℕ) → i + 1 ≤ j → P j) → (j : ℕ) → i ≤ j → P j
at-next {P} {i} here next j le = elim (ℕ_discrete j i) [
  | yes e ↦ rw e here
  | no ne ↦ next j (omega arith)
]

module _ (s : Shm) (m : Mem) where
  abbrev Owned : ℕ → Type 0
  Owned j = sas_thread_id m (sas_at j) ≢ 0

  -- The result of a search from segment `i` on.
  abbrev Claimed : ℕ → ℕ → Type 0
  Claimed fuel i =
      ((claim_segment fuel s i m ≡ ok none m) × ((j : ℕ) → i ≤ j → Fits s j → Owned j))
      ⊎ ((k : ℕ) × Fits s k
          × (sas_thread_id m (sas_at k) ≡ 0)
          × ((j : ℕ) → i ≤ j → j < k → Owned j)
          × (claim_segment fuel s i m ≡ ok (some k) (set_sas_thread_id (sas_at k) s.thread_id m)))

  claim_segment-Claimed :
      (fuel i : ℕ)
      → 0 < fuel
      → s.size < segments_area_start + (i + fuel) * segment_size
      → Claimed fuel i
  unfolding claim_segment
  claim_segment-Claimed zero i more h = absurd (omega arith)
  claim_segment-Claimed (suc fuel) i more h =
      elim (Bool-cases (ltb s.size (segments_area_start + (i + 1) * segment_size))) [
        | inl past ↦ inl (rw past refl, λ j lo fits. absurd (ground (arith, past)))
        | inr within ↦ elim (Bool-cases (sas_thread_id m (sas_at i) == 0)) [
          | inl free ↦ inr (
            i,
            ground (arith, within),
            ==→eq (sas_thread_id m (sas_at i)) 0 free,
            (λ j lo hi. absurd (omega arith)),
            rw (within, free) refl,
          )
          | inr owned ↦
              let here : Owned i = ==→ne (sas_thread_id m (sas_at i)) 0 owned in
              elim (claim_segment-Claimed fuel (i + 1) (ground (arith, within)) (omega arith)) [
                | inl r ↦
                    inl (
                      rw (within, owned) r.0,
                      at-next {P = λ j. Fits s j → Owned j} (λ f. here) r.1,
                    )
                | inr r ↦ inr (
                  r.0,
                  r.1,
                  r.2,
                  at-next {P = λ j. j < r.0 → Owned j} (λ f. here) r.3,
                  rw (within, owned) r.4,
                )
              ]
        ]
      ]

  -- `cxl_segment_alloc` claims the first segment that belongs to no thread and ends within the
  -- region, and no segment only if every one that does belongs to a thread. The search ends.
  pub claim_segment-first :
      ((claim_segment (segment_fuel s) s 0 m ≡ ok none m)
        × ((j : ℕ) → Fits s j → sas_thread_id m (sas_at j) ≢ 0))
      ⊎ ((k : ℕ) × Fits s k
          × (sas_thread_id m (sas_at k) ≡ 0)
          × ((j : ℕ) → j < k → sas_thread_id m (sas_at j) ≢ 0)
          × (claim_segment (segment_fuel s) s 0 m
              ≡ ok (some k) (set_sas_thread_id (sas_at k) s.thread_id m)))
  claim_segment-first =
      elim (claim_segment-Claimed (segment_fuel s) 0 (omega arith) (omega arith)) [
        | inl r ↦ inl (r.0, λ j. r.1 j (omega arith))
        | inr r ↦ inr (r.0, r.1, r.2, (λ j. r.3 j (omega arith)), r.4)
      ]
