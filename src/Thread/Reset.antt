-- ===== src/Thread/Reset.antt =====
-- The queues that `thread_init` leaves in a thread-local state.
use sosp_paper19_ae.Base.{
  ne→==, ℕ, zero, suc, ◌+◌, ◌-◌, ◌*◌, ◌/◌, ◌≤◌, ◌<◌, ◌≡◌, refl, ◌∙◌, ◌⊎◌, inl, inr, arith, ◌==◌,
  if◌then◌else◌, false, ℕ_discrete,
}
use sosp_paper19_ae.Memory.{Mem, store}
use sosp_paper19_ae.Layout.{
  cxl_bin_size, message_queue_size, last_at, queue_block_size_at, pages_at, free_page_at,
  sender_queue_at, receiver_queue_at, cxl_page_queue, root_ref_size,
}
use sosp_paper19_ae.Layout.Bins.{bin_block_size, cxl_page_queue_fits}
use sosp_paper19_ae.Thread.{reset_queue, reset_bins, reset_tls}

-- A queue that holds no page, of blocks of a size.
pub record IsReset (m : Mem) (queue size : ℕ) : Type 0 where
  pub first : m queue ≡ 0
  pub last : m (last_at queue) ≡ 0
  pub block_size : m (queue_block_size_at queue) ≡ size

pub reset_queue-other :
    (q size a : ℕ) (m : Mem) → (a < q) ⊎ (q + 24 ≤ a) → reset_queue q size m a ≡ m a
unfolding reset_queue store
reset_queue-other q size a m (inl lt) = ground arith
reset_queue-other q size a m (inr le) = ground arith

pub reset_bins-other :
    (n tls i a : ℕ) (m : Mem)
    → (a < pages_at tls i) ⊎ (pages_at tls (i + n) ≤ a)
    → reset_bins n tls i m a ≡ m a
unfolding reset_bins
reset_bins-other zero tls i a m h = refl
reset_bins-other (suc n) tls i a m h =
    reset_bins-other n tls (i + 1) a (reset_queue (pages_at tls i) (16 * (i - 1)) m)
      (ground (arith, h))
    ∙ reset_queue-other (pages_at tls i) (16 * (i - 1)) a m (ground (arith, h))

-- A write elsewhere keeps a reset queue.
pub IsReset-other :
    {m m' : Mem} {q size : ℕ}
    → ((a : ℕ) → q ≤ a → a < q + 24 → m' a ≡ m a)
    → IsReset m q size
    → IsReset m' q size
IsReset-other {m} {m'} {q} same h = record {
  first = same q (omega arith) (omega arith) ∙ h.first;
  last = same (last_at q) (omega arith) (omega arith) ∙ h.last;
  block_size = same (queue_block_size_at q) (omega arith) (omega arith) ∙ h.block_size;
}

pub reset_queue-IsReset : (q size : ℕ) (m : Mem) → IsReset (reset_queue q size m) q size
unfolding reset_queue store
reset_queue-IsReset q size m = record {
  first = ground arith;
  last = ground arith;
  block_size = ground arith;
}

reset_bins-IsReset :
    (n tls i b : ℕ) (m : Mem)
    → i ≤ b
    → b < i + n
    → IsReset (reset_bins n tls i m) (pages_at tls b) (bin_block_size b)
unfolding reset_bins
reset_bins-IsReset zero tls i b m lo hi = absurd (omega arith)
reset_bins-IsReset (suc n) tls i b m lo hi = elim (ℕ_discrete i b) [
  | yes e ↦
      IsReset-other
        (λ a lo' hi'.
          reset_bins-other n tls (i + 1) a (reset_queue (pages_at tls i) (16 * (i - 1)) m)
            (inl (omega arith)))
        (rw e (reset_queue-IsReset (pages_at tls b) (bin_block_size b) m))
  | no ne ↦
      reset_bins-IsReset n tls (i + 1) b (reset_queue (pages_at tls i) (16 * (i - 1)) m)
        (omega arith) (omega arith)
]

-- What `thread_init` writes behind the bins.
abbrev pub tail : ℕ → Mem → Mem
tail tls m =
    store (store (reset_queue (free_page_at tls) 0 m) (sender_queue_at tls) 0)
      (receiver_queue_at tls) 0

tail-other : (tls a : ℕ) (m : Mem) → a < free_page_at tls → tail tls m a ≡ m a
unfolding reset_queue store
tail-other tls a m h = ground arith

-- The size of the blocks of each bin.
abbrev pub init_block_size : ℕ → ℕ
init_block_size b =
    if b == 0
    then root_ref_size
    else if b == 1
    then 16 * ((message_queue_size - 1) / 16) + 16
    else bin_block_size b

module _ (tls : ℕ) (m : Mem) where
  abbrev pub special : Mem
  special =
      reset_queue (pages_at tls 1) (init_block_size 1)
        (reset_queue (pages_at tls 0) (init_block_size 0) m)

  abbrev pub bins : Mem
  bins = reset_bins (cxl_bin_size - 2) tls 2 special

  special-IsReset :
      (b : ℕ)
      → b < 2
      → IsReset special (pages_at tls b) (init_block_size b)
      → IsReset bins (pages_at tls b) (init_block_size b)
  special-IsReset b lt h =
      IsReset-other
        (λ a lo hi. reset_bins-other (cxl_bin_size - 2) tls 2 a special (inl (omega arith))) h

  -- After `thread_init`, bin `b` of the thread holds no page, and pages of its block size will be
  -- made for it: 16 bytes for root references, 192 for message queues, 16 (b - 1) for the others.
  pub reset_tls-IsReset :
      (b : ℕ) → b < cxl_bin_size → IsReset (reset_tls tls m) (pages_at tls b) (init_block_size b)
  unfolding reset_tls
  reset_tls-IsReset b lt =
      IsReset-other (λ a lo hi. tail-other tls a bins (omega arith)) (by_bin b lt)
    where
      by_bin : (b : ℕ) → b < cxl_bin_size → IsReset bins (pages_at tls b) (init_block_size b)
      by_bin zero lt = special-IsReset 0 (omega arith) (
          IsReset-other
            (λ a lo hi.
              reset_queue-other (pages_at tls 1) (init_block_size 1) a _ (inl (omega arith)))
            (reset_queue-IsReset (pages_at tls 0) (init_block_size 0) m))
      by_bin (suc zero) lt =
          special-IsReset 1 (omega arith)
            (reset_queue-IsReset (pages_at tls 1) (init_block_size 1) _)
      by_bin (suc (suc b)) lt =
          rw (ne→== (suc (suc b)) 0 (omega arith), ne→== (suc (suc b)) 1 (omega arith))
            (reset_bins-IsReset (cxl_bin_size - 2) tls 2 (suc (suc b)) special (omega arith)
              (omega arith))

  -- Once `thread_init` has set the queues, a request of 1 to 1024 bytes goes to a queue that holds
  -- no page and whose block size is enough for it.
  reset_tls-fits :
      (size : ℕ)
      → 1 ≤ size
      → size ≤ 1024
      → (reset_tls tls m (cxl_page_queue tls false size) ≡ 0)
        × (size ≤ reset_tls tls m (queue_block_size_at (cxl_page_queue tls false size)))
  reset_tls-fits size lo hi =
      let (b, at, lo', hi', holds, tight) = cxl_page_queue_fits tls size lo hi in
      let h = reset_tls-IsReset b hi' in
      (rw at h.first, rw (at, h.block_size, ne→== b 0 (omega arith), ne→== b 1 (omega arith)) holds)
