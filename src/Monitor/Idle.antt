-- ===== src/Monitor/Idle.antt =====
-- `recovery_garbage_collection` of src/recovery.cpp for a dead thread that has no page in a bin and
-- no message queue.
use sosp_paper19_ae.Base.{
  ℕ, zero, suc, ◌+◌, ◌≤◌, ◌<◌, ◌≡◌, ◌≢◌, refl, ap, ◌∙◌, inl, arith, eq→==, if◌then◌else◌, ◌⊎◌,
}
use sosp_paper19_ae.Memory.{Mem, store, store_self, store_other, ok, lo32}
use sosp_paper19_ae.Layout.{
  max_thread, max_segment_num, sas_at, tls_at, packed_id_at, pages_at, sender_queue_at,
  receiver_queue_at, cxl_bin_size, cxl_page_queue,
}
use sosp_paper19_ae.Handle.{Shm, sas_thread_id}
use sosp_paper19_ae.Thread.{handle_of, reset_tls}
use sosp_paper19_ae.Thread.Reset.{IsReset, init_block_size, reset_tls-IsReset, IsReset-other}
use sosp_paper19_ae.Thread.New.{reset_tls-other}
use sosp_paper19_ae.Collect.{collect_sender_queues, collect_receiver_queues}
use sosp_paper19_ae.Monitor.Sweep.{
  sweep_root_pages, sweep_object_pages, sweep_bins, free_segments, release_tls,
  recovery_garbage_collection,
}
use sosp_paper19_ae.Monitor.Release.{is_released, free_segments-lem}

-- The thread in slot `i` has no page in a bin and no message queue.
pub record IsIdle (m : Mem) (i : ℕ) : Type 0 where
  pub bins : (b : ℕ) → b < cxl_bin_size → m (pages_at (tls_at i) b) ≡ 0
  pub senders : m (sender_queue_at (tls_at i)) ≡ 0
  pub receivers : m (receiver_queue_at (tls_at i)) ≡ 0

sweep_bins-none :
    (fuel n j : ℕ) (s : Shm) (m : Mem)
    → ((b : ℕ) → j ≤ b → b < j + n → m (pages_at s.tls_offset b) ≡ 0)
    → sweep_bins (suc fuel) n s j m ≡ ok tt m
unfolding sweep_bins sweep_object_pages
sweep_bins-none fuel zero j s m empty = refl
sweep_bins-none fuel (suc n) j s m empty =
    rw (empty j (omega arith) (omega arith))
      (sweep_bins-none fuel n (j + 1) s m (λ b lo hi. empty b (omega arith) (omega arith)))

module _ (size i : ℕ) (few : i < max_thread) (m : Mem) (idle : IsIdle m i) where
  abbrev s : Shm
  s = handle_of size i

  release-run :
      (n : Mem) (id : ℕ)
      → n (packed_id_at (tls_at i)) ≡ id
      → release_tls (tls_at i) id (reset_tls (tls_at i) n)
        ≡ ok tt (store (reset_tls (tls_at i) n) (packed_id_at (tls_at i)) 0)
  unfolding release_tls
  release-run n id own =
      rw
        (
          reset_tls-other (tls_at i) (packed_id_at (tls_at i)) n (inl (omega arith)) ∙ own,
          eq→== id id refl,
        )
        refl

  collection-run :
      (fuel id : ℕ) (m1 : Mem)
      → free_segments max_segment_num s 0 m ≡ ok tt m1
      → m1 (packed_id_at (tls_at i)) ≡ id
      → recovery_garbage_collection (suc fuel) s id m
        ≡ ok tt (store (reset_tls (tls_at i) m1) (packed_id_at (tls_at i)) 0)
  unfolding recovery_garbage_collection sweep_root_pages collect_sender_queues
      collect_receiver_queues cxl_page_queue
  collection-run fuel id m1 run own =
      rw
        (
          idle.bins 0 (omega arith),
          idle.senders,
          idle.receivers,
          sweep_bins-none fuel 64 2 s m (λ b lo hi. idle.bins b (omega arith)),
          run,
        )
        (release-run m1 id own)

  abbrev emptied : Mem → Mem
  emptied n = store (reset_tls (tls_at i) n) (packed_id_at (tls_at i)) 0

  emptied-other :
      (n : Mem) (a : ℕ) → (a < packed_id_at (tls_at i)) ⊎ (tls_at i + 2144 ≤ a) → emptied n a ≡ n a
  emptied-other n a out =
      store_other (reset_tls (tls_at i) n) (packed_id_at (tls_at i)) 0 a (ground (arith, out))
      ∙ reset_tls-other (tls_at i) a n (ground (arith, out))

  emptied-bins :
      (n : Mem) (b : ℕ)
      → b < cxl_bin_size
      → IsReset (emptied n) (pages_at (tls_at i) b) (init_block_size b)
  emptied-bins n b lt =
      IsReset-other
        (λ a lo hi.
          store_other (reset_tls (tls_at i) n) (packed_id_at (tls_at i)) 0 a (omega arith))
        (reset_tls-IsReset (tls_at i) n b lt)

  -- For a dead thread that has no page in a bin and no message queue, `recovery_garbage_collection`
  -- ends without running out of fuel: its thread-local state has no id, so that the slot can be claimed
  -- again, with all bins empty and of their block sizes; of the segments, those of the thread that are
  -- not abandoned belong to no thread, and the others to whom they did; and the slots of the other
  -- threads keep their ids.
  pub recovery_garbage_collection-idle :
      (fuel : ℕ)
      → (m' : Mem) × (recovery_garbage_collection (suc fuel) s (m (packed_id_at (tls_at i))) m
          ≡ ok tt m')
        × (m' (packed_id_at (tls_at i)) ≡ 0)
        × ((b : ℕ) → b < cxl_bin_size → IsReset m' (pages_at (tls_at i) b) (init_block_size b))
        × ((k : ℕ)
            → k < max_segment_num
            → sas_thread_id m' (sas_at k)
              ≡ (if is_released s m k then 0 else sas_thread_id m (sas_at k)))
        × ((j : ℕ)
            → j < max_thread
            → j ≢ i
            → m' (packed_id_at (tls_at j)) ≡ m (packed_id_at (tls_at j)))
  unfolding sas_thread_id
  recovery_garbage_collection-idle fuel =
      let (m1, run, owners, kept) = free_segments-lem s max_segment_num 0 m (omega arith) in
      (
        emptied m1,
        collection-run fuel (m (packed_id_at (tls_at i))) m1 run
            (kept (packed_id_at (tls_at i)) (omega arith) (λ k lo hi. omega arith)),
        store_self (reset_tls (tls_at i) m1) (packed_id_at (tls_at i)) 0,
        emptied-bins m1,
        (λ k lt.
            ap lo32 (emptied-other m1 (sas_at k) (inl (omega arith)))
            ∙ owners k (omega arith) (omega arith)),
        λ j lt ne.
            emptied-other m1 (packed_id_at (tls_at j)) (elsewhere j ne)
            ∙ kept (packed_id_at (tls_at j)) (omega arith) (λ k lo hi. omega arith),
      )
    where
      elsewhere :
          (j : ℕ)
          → j ≢ i
          → (packed_id_at (tls_at j) < packed_id_at (tls_at i))
            ⊎ (tls_at i + 2144 ≤ packed_id_at (tls_at j))
      elsewhere j ne = ground arith
