-- ===== src/Transfer.antt =====
-- src/transfer.cpp: references sent through message queues, rings of 16 slots in the region.
pub mod Ring
pub mod Send
pub mod Receive
mod Tests
pub mod Unwrap
pub mod Join
use sosp_paper19_ae.Base.{ℕ, ◌+◌, ◌-◌, ◌%◌, ◌^◌, Bool, true, false, ◌||◌, ◌==◌, if◌then◌else◌}
use sosp_paper19_ae.Memory.{
  Mem, store, u64, bits16, with_bits16, ok, Cmd, pure, ◌>>=◌, ◌>>◌, gets, modify, peek, deref,
}
use sosp_paper19_ae.Layout.{
  message_buffer_size, cxlobj_size, sender_queue_at, receiver_queue_at, end_at, ids_at,
  sender_next_at, receiver_next_at, buffer_at,
}
use sosp_paper19_ae.Handle.{Shm}
use sosp_paper19_ae.Alloc.{CxlRef, thread_base_ref_alloc, inc_root_ref_cnt, msg_queue_alloc}
use sosp_paper19_ae.RefCount.{link_reference, unlink_reference}
use sosp_paper19_ae.Ref.{null_ref}

-- The object that a reference leads to: `ref.get_tbr()->pptr`, where `get_tbr` of a handle without a
-- root reference is NULL.
unfoldable pub cxl_wrap : CxlRef → Cmd ℕ
cxl_wrap ref = do deref ref.tbr; peek ref.tbr

-- `q->end + 1 == q->start || q->end - q->start == MESSAGE_BUFFER_SIZE - 1`, in `size_t`.
unfoldable pub is_full : ℕ → ℕ → Bool
is_full start end =
    (u64 (end + 1) == start) || (u64 (end + 2 ^ 64 - start) == message_buffer_size - 1)

abbrev pub next_slot : ℕ → ℕ
next_slot i = u64 (i + 1) % message_buffer_size

-- S1 links the slot to the object, S2 moves `end`.
unfoldable pub send : Shm → ℕ → ℕ → Mem → Mem
send s queue offset m =
    let m1 = link_reference s (buffer_at queue (m (end_at queue))) offset m in
    store m1 (end_at queue) (next_slot (m1 (end_at queue)))

unfoldable pub sent_to : Shm → ℕ → CxlRef → Cmd Bool
sent_to s queue ref = do
  offset ← cxl_wrap ref
  full ← gets (λ m. is_full (m queue) (m (end_at queue)))
  if full then pure false else (do modify (send s queue offset); pure true)

-- The first receiver puts the queue into its own list of queues.
unfoldable pub join_queue : Shm → ℕ → Mem → Mem
join_queue s queue m =
    if bits16 (m (ids_at queue)) == 0
    then (let m1 = store m (receiver_next_at queue) (m (receiver_queue_at s.tls_offset)) in
        let m2 = store m1 (receiver_queue_at s.tls_offset) queue in
        store m2 (ids_at queue) (with_bits16 (m2 (ids_at queue)) s.thread_id))
    else m

-- `q->start == q->end || q->buffer[q->start] == 0`
unfoldable pub nothing_sent : ℕ → Mem → Bool
nothing_sent queue m = (m queue == m (end_at queue)) || (m (buffer_at queue (m queue)) == 0)

-- R3
unfoldable pub advance_start : ℕ → Mem → Mem
advance_start queue m = store m queue (next_slot (m queue))

-- R1 to R3. The new root reference is used without a test for NULL.
unfoldable pub receive : ℕ → Shm → ℕ → Cmd CxlRef
receive fuel s queue = do
  tbr ← thread_base_ref_alloc fuel s
  deref tbr
  modify (λ m. link_reference s tbr (m (buffer_at queue (m queue))) m)
  modify (inc_root_ref_cnt tbr)
  start ← peek queue
  object ← peek (buffer_at queue start)
  unlink_reference s (buffer_at queue start) object
  modify (advance_start queue)
  pptr ← peek tbr
  pure (record { tbr = tbr; value = pptr + cxlobj_size })

unfoldable pub cxl_unwrap : ℕ → Shm → ℕ → Cmd CxlRef
cxl_unwrap fuel s queue = do
  modify (join_queue s queue)
  empty ← gets (nothing_sent queue)
  if empty then pure null_ref else receive fuel s queue

-- The result is used without a test for NULL. The receiver's id is not stored.
unfoldable pub create_msg_queue : ℕ → Shm → Cmd ℕ
create_msg_queue fuel s = do
  q ← msg_queue_alloc fuel s s.thread_id
  deref q
  modify (λ m. store m (sender_next_at q) (m (sender_queue_at s.tls_offset)))
  modify (λ m. store m (sender_queue_at s.tls_offset) q)
  pure q
