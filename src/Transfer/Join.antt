-- ===== src/Transfer/Join.antt =====
-- `cxl_unwrap` of src/transfer.cpp up to the receipt: the queue is joined and tested.
use sosp_paper19_ae.Base.{ℕ, suc, ◌≤◌, ◌<◌, ◌≡◌, ◌≢◌, refl, List, ◌∷◌, arith, ne→==, length}
use sosp_paper19_ae.Memory.{Mem, store}
use sosp_paper19_ae.Layout.{
  hash_table_start, message_buffer_size, max_thread, end_at, buffer_at, ids_at, receiver_next_at,
  receiver_queue_at, tls_at,
}
use sosp_paper19_ae.Handle.{Shm}
use sosp_paper19_ae.Thread.{handle_of}
use sosp_paper19_ae.Transfer.{cxl_unwrap, join_queue, receive}
use sosp_paper19_ae.Transfer.Ring.{IsRing, Contains-frame, nothing_sent-length}

-- The words of a ring determine what it holds.
pub IsRing-frame :
    (m m' : Mem) (q : ℕ) (xs : List ℕ)
    → m' q ≡ m q
    → m' (end_at q) ≡ m (end_at q)
    → ((j : ℕ) → j < message_buffer_size → m' (buffer_at q j) ≡ m (buffer_at q j))
    → IsRing m q xs
    → IsRing m' q xs
IsRing-frame m m' q xs start end slots h = record {
  start_lt = rw start h.start_lt;
  room = h.room;
  holds =
      rw (start, end)
        (Contains-frame m m' q (m q) xs (m (end_at q)) h.start_lt h.room (λ j lt ne. slots j lt)
          h.holds);
}

module _ (size i : ℕ) (few : i < max_thread) (q : ℕ) (m : Mem) (high : hash_table_start ≤ q) where
  abbrev s : Shm
  s = handle_of size i

  -- The receiver has put the queue into its list.
  abbrev pub joined : Mem
  joined = join_queue s q m

  pub joined-other :
      (a : ℕ)
      → a ≢ receiver_next_at q
      → a ≢ ids_at q
      → a ≢ receiver_queue_at (tls_at i)
      → joined a ≡ m a
  unfolding join_queue store
  joined-other a ne ne' ne'' = ground arith

  pub joined-IsRing : (xs : List ℕ) → IsRing m q xs → IsRing joined q xs
  joined-IsRing xs h =
      IsRing-frame m joined q xs (joined-other q (omega arith) (omega arith) (omega arith))
        (joined-other (end_at q) (omega arith) (omega arith) (omega arith))
        (λ j lt. joined-other (buffer_at q j) (omega arith) (omega arith) (omega arith)) h

  pub unwrap-receive :
      (fuel x : ℕ) (xs : List ℕ)
      → IsRing m q (x ∷ xs)
      → cxl_unwrap fuel s q m ≡ receive fuel s q joined
  unfolding cxl_unwrap
  unwrap-receive fuel x xs h =
      rw
        (
          nothing_sent-length (x ∷ xs) (joined-IsRing (x ∷ xs) h),
          ne→== (suc (length xs)) 0 (omega arith),
        )
        refl
