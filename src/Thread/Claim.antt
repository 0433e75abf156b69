-- ===== src/Thread/Claim.antt =====
-- Which thread-local state `thread_init` claims.
use sosp_paper19_ae.Base.{
  eq→==, ne→==, ℕ_discrete, ℕ, zero, suc, ◌+◌, ◌≤◌, ◌<◌, ◌≡◌, refl, ◌≢◌, arith,
}
use sosp_paper19_ae.Memory.{and_then, Mem, store, ok}
use sosp_paper19_ae.Layout.{packed_id_at, tls_at}
use sosp_paper19_ae.Thread.{claim_tls}

claim_tls-from :
    (fuel tls_id i k : ℕ) (m : Mem)
    → i ≤ k
    → k < i + fuel
    → m (packed_id_at (tls_at k)) ≡ 0
    → ((j : ℕ) → i ≤ j → j < k → m (packed_id_at (tls_at j)) ≢ 0)
    → claim_tls fuel tls_id i m ≡ ok k (store m (packed_id_at (tls_at k)) tls_id)
unfolding claim_tls
claim_tls-from zero tls_id i k m lo hi free taken = absurd (omega arith)
claim_tls-from (suc fuel) tls_id i k m lo hi free taken = elim (ℕ_discrete i k) [
  | yes e ↦ rw (e, eq→== (m (packed_id_at (tls_at k))) 0 free) refl
  | no ne ↦ rw (ne→== (m (packed_id_at (tls_at i))) 0 (taken i (omega arith) (omega arith))) (
      claim_tls-from fuel tls_id (i + 1) k m (omega arith) (omega arith) free
        (λ j lo' hi'. taken j (omega arith) hi'))
]

-- A thread claims the first thread-local state that is free, and writes its id there, if one of the
-- first `fuel` is free.
pub claim_tls-first :
    (fuel tls_id k : ℕ) (m : Mem)
    → k < fuel
    → m (packed_id_at (tls_at k)) ≡ 0
    → ((j : ℕ) → j < k → m (packed_id_at (tls_at j)) ≢ 0)
    → claim_tls fuel tls_id 0 m ≡ ok k (store m (packed_id_at (tls_at k)) tls_id)
claim_tls-first fuel tls_id k m lt free taken =
    claim_tls-from fuel tls_id 0 k m (omega arith) (omega arith) free (λ j lo hi. taken j hi)

-- A thread that comes next does not claim the same state, given that the id of the first is not 0.
pub claim_tls-twice :
    (fuel id1 id2 k k' : ℕ) (m : Mem)
    → id1 ≢ 0
    → k < k'
    → k' < fuel
    → m (packed_id_at (tls_at k)) ≡ 0
    → m (packed_id_at (tls_at k')) ≡ 0
    → ((j : ℕ) → j < k' → j ≢ k → m (packed_id_at (tls_at j)) ≢ 0)
    → and_then (claim_tls fuel id1 0 m) (λ i. claim_tls fuel id2 0)
      ≡ ok k' (store (store m (packed_id_at (tls_at k)) id1) (packed_id_at (tls_at k')) id2)
unfolding store
claim_tls-twice fuel id1 id2 k k' m ne lt lt' free free' taken =
    rw
      (claim_tls-first fuel id1 k m (omega arith) free
        (λ j hi. taken j (omega arith) (omega arith)))
      (claim_tls-first fuel id2 k' (store m (packed_id_at (tls_at k)) id1) lt' (ground arith)
        (λ j hi. elim (ℕ_discrete j k) [
          | yes e ↦ rw e (ground arith)
          | no other ↦
              rw (ne→== (packed_id_at (tls_at j)) (packed_id_at (tls_at k)) (omega arith))
                (taken j hi other)
        ]))
