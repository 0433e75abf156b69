-- ===== src/Thread.antt =====
-- `thread_init`, `cxl_malloc` and `get_ref` of src/cxl_shm.cpp.
pub mod Claim
pub mod Reset
mod Tests
pub mod Malloc
pub mod New
use sosp_paper19_ae.Base.{ℕ, zero, suc, ◌+◌, ◌-◌, ◌*◌, ◌/◌, ◌==◌, if◌then◌else◌}
use sosp_paper19_ae.Memory.{
  Mem, store, u64, ok, out_of_fuel, Cmd, pure, ◌>>=◌, ◌>>◌, modify, peek, deref,
}
use sosp_paper19_ae.Layout.{
  cxl_bin_size, cxlobj_size, last_at, queue_block_size_at, packed_id_at, pages_at, free_page_at,
  sender_queue_at, receiver_queue_at, tls_at, message_queue_size,
}
use sosp_paper19_ae.Handle.{Shm, advance_era}
use sosp_paper19_ae.Alloc.{CxlRef, thread_base_ref_alloc, cxl_ref_alloc, inc_root_ref_cnt}
use sosp_paper19_ae.RefCount.{link_reference}

-- The loop of `thread_init`: claim the first thread-local state from slot `i` on whose id is 0. The
-- source has no bound on the slots; `out_of_fuel` is that none of the next `fuel` is free.
unfoldable pub claim_tls : ℕ → ℕ → ℕ → Cmd ℕ
claim_tls zero tls_id i = λ _. out_of_fuel
claim_tls (suc fuel) tls_id i = λ m.
    let rest = claim_tls fuel tls_id (i + 1) m in
    if m (packed_id_at (tls_at i)) == 0
    then ok i (store m (packed_id_at (tls_at i)) tls_id)
    else rest

-- `*queue = {0, 0, block_size}`
unfoldable pub reset_queue : ℕ → ℕ → Mem → Mem
reset_queue queue block_size m =
    store (store (store m queue 0) (last_at queue) 0) (queue_block_size_at queue) block_size

-- The loop over the bins from `i` on.
unfoldable pub reset_bins : ℕ → ℕ → ℕ → Mem → Mem
reset_bins zero tls i m = m
reset_bins (suc n) tls i m =
    reset_bins n tls (i + 1) (reset_queue (pages_at tls i) (16 * (i - 1)) m)

-- The queues of a thread-local state, as `thread_init` and both garbage collections set them.
unfoldable pub reset_tls : ℕ → Mem → Mem
reset_tls tls m =
    let m1 = reset_queue (pages_at tls 0) 16 m in
    let m2 = reset_queue (pages_at tls 1) (16 * ((message_queue_size - 1) / 16) + 16) m1 in
    let m3 = reset_bins (cxl_bin_size - 2) tls 2 m2 in
    let m4 = reset_queue (free_page_at tls) 0 m3 in
    store (store m4 (sender_queue_at tls) 0) (receiver_queue_at tls) 0

-- The handle of a thread that has claimed slot `i` of a region of `size` bytes.
abbrev pub handle_of : ℕ → ℕ → Shm
handle_of size i = record { size = size; tls_offset = tls_at i; thread_id = i + 1 }

-- `tls_id` is what `pack_machine_process_id` makes of the machine's and the thread's ids.
unfoldable pub thread_init : ℕ → ℕ → ℕ → Cmd Shm
thread_init fuel size tls_id = do
  i ← claim_tls fuel tls_id 0
  modify (reset_tls (tls_at i))
  modify (advance_era (handle_of size i))
  pure (handle_of size i)

unfoldable pub cxl_malloc : ℕ → Shm → ℕ → ℕ → Cmd CxlRef
cxl_malloc fuel s data_size embedded_ref_cnt = do
  tbr ← thread_base_ref_alloc fuel s
  cxl_ref_alloc fuel s tbr (u64 (data_size + cxlobj_size)) embedded_ref_cnt

-- `tbr` is used without a test for NULL.
unfoldable pub get_ref : ℕ → Shm → ℕ → Cmd CxlRef
get_ref fuel s offset = do
  tbr ← thread_base_ref_alloc fuel s
  deref tbr
  modify (link_reference s tbr offset)
  modify (inc_root_ref_cnt tbr)
  pptr ← peek tbr
  pure (record { tbr = tbr; value = pptr + cxlobj_size })
