-- ===== src/Monitor/Release.antt =====
-- The end of `recovery_garbage_collection` of src/recovery.cpp: the segments of a dead thread and
-- its thread-local state become free.
use sosp_paper19_ae.Base.{
  ℕ, zero, suc, ◌+◌, ◌≤◌, ◌<◌, ◌≡◌, ◌≢◌, refl, ap, ◌∙◌, inl, inr, arith, eq→==, ◌==◌, if◌then◌else◌,
  ℕ_discrete, Bool, Bool-cases, true, not, ◌&&◌,
}
use sosp_paper19_ae.Memory.{Mem, store, memset, ok, lo32}
use sosp_paper19_ae.Layout.{
  max_segment_num, segments_area_start, sas_at, sas_state_at, abandon, cxl_segment_struct_size,
}
use sosp_paper19_ae.Layout.Pointers.{segment_at, sas_of_segment_lem}
use sosp_paper19_ae.Handle.{Shm, sas_thread_id, set_sas_thread_id}
use sosp_paper19_ae.Monitor.Free.{recovery_cxl_segment_free}
use sosp_paper19_ae.Monitor.Sweep.{free_segments}

-- A segment of the thread that is not abandoned.
abbrev pub is_released : Shm → Mem → ℕ → Bool
is_released s m j =
    (sas_thread_id m (sas_at j) == s.thread_id) && not (m (sas_state_at (sas_at j)) == abandon)

module _ (s : Shm) where
  abbrev released : ℕ → Mem → Mem
  released j m = set_sas_thread_id (sas_at j) 0 (memset m (segment_at j) cxl_segment_struct_size)

  released-own : (j : ℕ) (m : Mem) → sas_thread_id (released j m) (sas_at j) ≡ 0
  unfolding sas_thread_id set_sas_thread_id store
  released-own j m = ground arith

  released-other :
      (j a : ℕ) (m : Mem) → a < segments_area_start → a ≢ sas_at j → released j m a ≡ m a
  unfolding set_sas_thread_id store memset
  released-other j a m low ne = ground arith

  cleared-owner :
      (j : ℕ) (m : Mem)
      → j < max_segment_num
      → sas_thread_id (memset m (segment_at j) cxl_segment_struct_size) (sas_at j)
        ≡ sas_thread_id m (sas_at j)
  unfolding sas_thread_id memset
  cleared-owner j m lt = ground arith

  owner-released :
      (j : ℕ) (m : Mem) → is_released s m j ≡ true → sas_thread_id m (sas_at j) ≡ s.thread_id
  owner-released j m h = ground arith

  released-run :
      (j : ℕ) (m : Mem)
      → sas_thread_id m (sas_at j) ≡ s.thread_id
      → j < max_segment_num
      → recovery_cxl_segment_free s (segment_at j) m ≡ ok tt (released j m)
  unfolding recovery_cxl_segment_free
  released-run j m own lt =
      rw (sas_of_segment_lem j, cleared-owner j m lt ∙ own, eq→== s.thread_id s.thread_id refl) refl

  -- One round.
  abbrev round : ℕ → Mem → Mem
  round j m = if is_released s m j then released j m else m

  free_segments-round :
      (n j : ℕ) (m : Mem)
      → j < max_segment_num
      → free_segments (suc n) s j m ≡ free_segments n s (j + 1) (round j m)
  unfolding free_segments
  free_segments-round n j m lt = elim (Bool-cases (is_released s m j)) [
    | inl yes_it ↦ rw (yes_it, released-run j m (owner-released j m yes_it) lt) refl
    | inr no_it ↦ rw no_it refl
  ]

  round-own :
      (j : ℕ) (m : Mem)
      → sas_thread_id (round j m) (sas_at j)
        ≡ (if is_released s m j then 0 else sas_thread_id m (sas_at j))
  round-own j m = elim (Bool-cases (is_released s m j)) [
    | inl yes_it ↦ rw yes_it (released-own j m)
    | inr no_it ↦ rw no_it refl
  ]

  round-other : (j a : ℕ) (m : Mem) → a < segments_area_start → a ≢ sas_at j → round j m a ≡ m a
  round-other j a m low ne = elim (Bool-cases (is_released s m j)) [
    | inl yes_it ↦ rw yes_it (released-other j a m low ne)
    | inr no_it ↦ rw no_it refl
  ]

  round-owner :
      (j k : ℕ) (m : Mem)
      → k < max_segment_num
      → k ≢ j
      → (sas_thread_id (round j m) (sas_at k) ≡ sas_thread_id m (sas_at k))
        × (round j m (sas_state_at (sas_at k)) ≡ m (sas_state_at (sas_at k)))
  unfolding sas_thread_id
  round-owner j k m lt ne =
      let owner = round-other j (sas_at k) m (omega arith) (omega arith) in
      let state = round-other j (sas_state_at (sas_at k)) m (omega arith) (omega arith) in
      (ap lo32 owner, state)

  pub free_segments-lem :
      (n j : ℕ) (m : Mem)
      → j + n ≤ max_segment_num
      → (m' : Mem) × (free_segments n s j m ≡ ok tt m')
        × ((k : ℕ)
            → j ≤ k
            → k < j + n
            → sas_thread_id m' (sas_at k)
              ≡ (if is_released s m k then 0 else sas_thread_id m (sas_at k)))
        × ((a : ℕ)
            → a < segments_area_start
            → ((k : ℕ) → j ≤ k → k < j + n → a ≢ sas_at k)
            → m' a ≡ m a)
  unfolding free_segments sas_thread_id
  free_segments-lem zero j m le = (m, refl, (λ k lo hi. absurd (omega arith)), λ a low out. refl)
  free_segments-lem (suc n) j m le =
      let (m', run, owners, kept) = free_segments-lem n (j + 1) (round j m) (omega arith) in
      (
        m',
        free_segments-round n j m (omega arith) ∙ run,
        (λ k lo hi. elim (ℕ_discrete k j) [
          | yes e ↦
              rw e (
                ap lo32 (kept (sas_at j) (omega arith) (λ k' lo' hi'. omega arith)) ∙ round-own j m)
          | no ne ↦
              let same = round-owner j k m (omega arith) ne in
              owners k (omega arith) (omega arith) ∙ rw (same.0, same.1) refl
        ]),
        λ a low out.
            kept a low (λ k lo hi. out k (omega arith) (omega arith))
            ∙ round-other j a m low (out j (omega arith) (omega arith)),
      )
