-- ===== src/Monitor/Tests.antt =====
-- A region that nobody uses.
use sosp_paper19_ae.Monitor.Idle.{IsIdle, recovery_garbage_collection-idle}
use sosp_paper19_ae.Monitor.Release.{is_released}
use sosp_paper19_ae.Monitor.Sweep.{recovery_garbage_collection}
use sosp_paper19_ae.Handle.{sas_thread_id}
use sosp_paper19_ae.Thread.Reset.{IsReset, init_block_size}
use sosp_paper19_ae.Thread.{handle_of}
use sosp_paper19_ae.Base.{ℕ, ◌≡◌, ◌<◌, true, ◌↔◌, ◌==◌, if◌then◌else◌, refl, ◌≢◌, arith}
use sosp_paper19_ae.Memory.{Mem, lo32, ok}
use sosp_paper19_ae.Layout.{
  max_thread, max_segment_num, packed_id_at, tls_at, sas_at, pages_at, cxl_bin_size,
}
use sosp_paper19_ae.Monitor.{check_recovery}
use sosp_paper19_ae.Monitor.Check.{check_recovery_iff}

abbrev unused : Mem
unused = λ _. 0

check_recovery_iff_example : (check_recovery unused ≡ true) ↔ (
    ((j : ℕ) → j < max_thread → unused (packed_id_at (tls_at j)) ≡ 0)
    × ((j : ℕ) → j < max_segment_num → lo32 (unused (sas_at j)) ≡ 0))
check_recovery_iff_example = check_recovery_iff unused

-- Thread 1, whose id is 7, has died with segment 0 and without a page in use.
abbrev left : Mem
left = λ a. if a == packed_id_at (tls_at 0) then 7 else if a == sas_at 0 then 1 else 0

left-IsIdle : IsIdle left 0
left-IsIdle = record { bins = λ b lt. ground arith; senders = refl; receivers = refl }

recovery_garbage_collection-idle_example :
    (m' : Mem) × (recovery_garbage_collection 1 (handle_of 0 0) 7 left ≡ ok tt m')
    × (m' (packed_id_at (tls_at 0)) ≡ 0)
    × ((b : ℕ) → b < cxl_bin_size → IsReset m' (pages_at (tls_at 0) b) (init_block_size b))
    × ((k : ℕ)
        → k < max_segment_num
        → sas_thread_id m' (sas_at k)
          ≡ (if is_released (handle_of 0 0) left k then 0 else sas_thread_id left (sas_at k)))
    × ((j : ℕ)
        → j < max_thread
        → j ≢ 0
        → m' (packed_id_at (tls_at j)) ≡ left (packed_id_at (tls_at j)))
recovery_garbage_collection-idle_example =
    recovery_garbage_collection-idle 0 0 (omega arith) left left-IsIdle 0
