-- ===== src/Thread/New.antt =====
-- `thread_init` of src/cxl_shm.cpp leaves a thread without pages.
use sosp_paper19_ae.Alloc.Object.{advance_era-other, advance_era-below}
use sosp_paper19_ae.Thread.Claim.{claim_tls-first}
use sosp_paper19_ae.Thread.Malloc.{IsNew}
use sosp_paper19_ae.Layout.Pointers.{page_at}
use sosp_paper19_ae.Handle.{advance_era, sas_thread_id, current_era}
use sosp_paper19_ae.Base.{
  ℕ, ◌+◌, ◌≤◌, ◌<◌, ◌≡◌, ◌∙◌, ◌⊎◌, arith, ◌-◌, sym, inl, ◌≢◌, inr, ap, refl, ◌%◌, ◌^◌,
}
use sosp_paper19_ae.Memory.{Mem, store, load32, store32, lo32, ok}
use sosp_paper19_ae.Layout.{
  free_page_at, pages_at, cxl_bin_size, era, max_thread, packed_id_at, tls_at, max_segment_num,
  sas_at, pages_per_segment,
}
use sosp_paper19_ae.Thread.{reset_tls, reset_queue, advance_era, handle_of, thread_init}
use sosp_paper19_ae.Thread.Reset.{
  IsReset, reset_bins-other, reset_queue-other, IsReset-other, special, bins, tail, init_block_size,
  reset_tls-IsReset,
}

-- The queues that are set lie in the thread-local state, behind the logs and the id.
tail-outside :
    (tls a : ℕ) (m : Mem) → (a < free_page_at tls) ⊎ (tls + 2144 ≤ a) → tail tls m a ≡ m a
unfolding reset_queue store
tail-outside tls a m out = ground (arith, out)

pub reset_tls-other :
    (tls a : ℕ) (m : Mem) → (a < pages_at tls 0) ⊎ (tls + 2144 ≤ a) → reset_tls tls m a ≡ m a
unfolding reset_tls
reset_tls-other tls a m out =
    tail-outside tls a (bins tls m) (ground (arith, out))
    ∙ reset_bins-other (cxl_bin_size - 2) tls 2 a (special tls m) (ground (arith, out))
    ∙ reset_queue-other (pages_at tls 1) (init_block_size 1) a
        (reset_queue (pages_at tls 0) (init_block_size 0) m) (ground (arith, out))
    ∙ reset_queue-other (pages_at tls 0) (init_block_size 0) a m (ground (arith, out))

tail-IsReset : (tls : ℕ) (m : Mem) → IsReset (tail tls m) (free_page_at tls) 0
unfolding reset_queue store
tail-IsReset tls m = record { first = ground arith; last = ground arith; block_size = ground arith }

reset_tls-free : (tls : ℕ) (m : Mem) → IsReset (reset_tls tls m) (free_page_at tls) 0
unfolding reset_tls
reset_tls-free tls m = tail-IsReset tls (bins tls m)

advance_era-era :
    (size i : ℕ) (m : Mem)
    → i < max_thread
    → current_era (handle_of size i) (advance_era (handle_of size i) m)
      ≡ (current_era (handle_of size i) m + 1) % 2 ^ 32
unfolding advance_era current_era store32 load32 era store
advance_era-era size i m few = ground arith

module _ (size i tls_id : ℕ) (few : i < max_thread) (m : Mem) where
  abbrev claimed : Mem
  claimed = store m (packed_id_at (tls_at i)) tls_id

  abbrev started : Mem
  started = advance_era (handle_of size i) (reset_tls (tls_at i) claimed)

  started-reset : (a : ℕ) → tls_at 0 ≤ a → started a ≡ reset_tls (tls_at i) claimed a
  started-reset a high = advance_era-other size i a (reset_tls (tls_at i) claimed) few (omega arith)

  started-id : started (packed_id_at (tls_at i)) ≡ tls_id
  unfolding store
  started-id =
      started-reset (packed_id_at (tls_at i)) (omega arith)
      ∙ reset_tls-other (tls_at i) (packed_id_at (tls_at i)) claimed (inl (omega arith))
      ∙ ground arith

  reset-low : (a : ℕ) → a < tls_at 0 → reset_tls (tls_at i) claimed a ≡ m a
  unfolding store
  reset-low a low = reset_tls-other (tls_at i) a claimed (inl (omega arith)) ∙ ground arith

  reset-era :
      current_era (handle_of size i) (reset_tls (tls_at i) claimed)
      ≡ current_era (handle_of size i) m
  unfolding current_era load32 era
  reset-era =
      let at : ℕ = era (i + 1) (i + 1) in
      rw (reset-low at (omega arith), reset-low (at - 4) (omega arith)) refl

  started-era :
      current_era (handle_of size i) started ≡ (current_era (handle_of size i) m + 1) % 2 ^ 32
  started-era =
      advance_era-era size i (reset_tls (tls_at i) claimed) few
      ∙ ap (λ n. (n + 1) % 2 ^ 32) reset-era

  started-low : (k : ℕ) → k < max_segment_num → started (sas_at k) ≡ m (sas_at k)
  unfolding store
  started-low k lt =
      advance_era-below size i (sas_at k) (reset_tls (tls_at i) claimed) few (omega arith)
      ∙ reset_tls-other (tls_at i) (sas_at k) claimed (inl (omega arith))
      ∙ ground arith

  started-page : (k j : ℕ) → started (page_at k j) ≡ m (page_at k j)
  unfolding store
  started-page k j =
      started-reset (page_at k j) (omega arith)
      ∙ reset_tls-other (tls_at i) (page_at k j) claimed (inr (omega arith))
      ∙ ground arith

  started-IsReset :
      (q bsz : ℕ)
      → tls_at 0 ≤ q
      → IsReset (reset_tls (tls_at i) claimed) q bsz
      → IsReset started q bsz
  started-IsReset q bsz high h = IsReset-other (λ a lo hi. started-reset a (omega arith)) h

  -- `thread_init` claims the first thread-local state that is free: it stores the id of the process
  -- there. It advances the era of the thread, modulo 2 ^ 32, and leaves a thread without pages:
  -- every bin is empty and has its block size, and the free queue is empty. The pages of segments that
  -- belong to no thread must have no free block, and still have none.
  pub thread_init-IsNew :
      (fuel : ℕ)
      → i < fuel
      → m (packed_id_at (tls_at i)) ≡ 0
      → ((j : ℕ) → j < i → m (packed_id_at (tls_at j)) ≢ 0)
      → ((k j : ℕ)
          → k < max_segment_num
          → j < pages_per_segment
          → sas_thread_id m (sas_at k) ≡ 0
          → m (page_at k j) ≡ 0)
      → (m' : Mem) × (thread_init fuel size tls_id m ≡ ok (handle_of size i) m')
        × (m' (packed_id_at (tls_at i)) ≡ tls_id)
        × (current_era (handle_of size i) m' ≡ (current_era (handle_of size i) m + 1) % 2 ^ 32)
        × IsNew m' i
  unfolding thread_init sas_thread_id
  thread_init-IsNew fuel lt free taken unused = (
    started,
    rw (claim_tls-first fuel tls_id i m lt free taken) refl,
    started-id,
    started-era,
    record {
      empty = λ b hi. (bin b hi).first;
      size_of = λ b hi. (bin b hi).block_size;
      no_free = (queue.first, queue.last);
      unused = λ k j small hi e.
          started-page k j ∙ unused k j small hi (ap lo32 (sym (started-low k small)) ∙ e);
    },
  )
    where
      bin : (b : ℕ) → b < cxl_bin_size → IsReset started (pages_at (tls_at i) b) (init_block_size b)
      bin b hi =
          started-IsReset (pages_at (tls_at i) b) (init_block_size b) (omega arith)
            (reset_tls-IsReset (tls_at i) claimed b hi)

      queue : IsReset started (free_page_at (tls_at i)) 0
      queue =
          started-IsReset (free_page_at (tls_at i)) 0 (omega arith)
            (reset_tls-free (tls_at i) claimed)
