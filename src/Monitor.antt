-- ===== src/Monitor.antt =====
-- The monitor of src/recovery.cpp and include/recovery.h: `recovery_loop` looks for dead threads
-- and for segments with nothing alive. `fuel` bounds lists, depth and blocks.
pub mod Free
pub mod Sweep
pub mod Scan
pub mod Check
mod Tests
pub mod Release
pub mod Idle
use sosp_paper19_ae.Base.{ℕ, zero, suc, ◌+◌, ◌-◌, Bool, true, false, not, ◌==◌, if◌then◌else◌}
use sosp_paper19_ae.Memory.{Mem, lo32, Cmd, pure, modify, peek, ◌>>=◌, ◌>>◌}
use sosp_paper19_ae.Layout.{max_thread, max_segment_num, sas_at, packed_id_at, tls_at}
use sosp_paper19_ae.Redo.{dead_thread, redo_ref_cnt}
use Sweep.{recovery_garbage_collection}
use Scan.{scan_segments}

-- Every thread that has an id is taken for dead.
unfoldable pub check_tls : ℕ → Bool
check_tls id = not (id == 0)

-- One round of the first loop: the thread in slot `i`.
unfoldable pub recover_thread : ℕ → ℕ → ℕ → Cmd (Unit {0})
recover_thread fuel size i = do
  id ← peek (packed_id_at (tls_at i))
  if check_tls id
      then (do
        modify (redo_ref_cnt (dead_thread size (tls_at i)))
        recovery_garbage_collection fuel (dead_thread size (tls_at i)) id)
      else pure tt

unfoldable pub recover_threads : ℕ → ℕ → ℕ → ℕ → Cmd (Unit {0})
recover_threads fuel size zero i = pure tt
recover_threads fuel size (suc n) i = do
  recover_thread fuel size i
  recover_threads fuel size n (i + 1)

unfoldable pub single_recovery_loop : ℕ → ℕ → Cmd (Unit {0})
single_recovery_loop fuel size = do
  recover_threads fuel size max_thread 0
  scan_segments fuel max_segment_num 0

-- The first `rounds` rounds of `recovery_loop`, which has no end.
unfoldable pub recovery_loop : ℕ → ℕ → ℕ → Cmd (Unit {0})
recovery_loop fuel size zero = pure tt
recovery_loop fuel size (suc rounds) = do
  single_recovery_loop fuel size
  recovery_loop fuel size rounds

-- The two loops of `check_recovery`, from index `i` on.
unfoldable pub no_thread_from : ℕ → ℕ → Mem → Bool
no_thread_from zero i m = true
no_thread_from (suc n) i m =
    if m (packed_id_at (tls_at i)) == 0 then no_thread_from n (i + 1) m else false

unfoldable pub no_segment_from : ℕ → ℕ → Mem → Bool
no_segment_from zero i m = true
no_segment_from (suc n) i m =
    if lo32 (m (sas_at i)) == 0 then no_segment_from n (i + 1) m else false

unfoldable pub check_recovery : Mem → Bool
check_recovery m =
    if no_thread_from max_thread 0 m then no_segment_from max_segment_num 0 m else false
