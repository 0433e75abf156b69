-- ===== src/Redo/Frame.antt =====
-- What `redo_ref_cnt` can write.
use sosp_paper19_ae.Base.{ℕ, ◌≡◌, ◌≢◌, arith}
use sosp_paper19_ae.Memory.{Mem, store}
use sosp_paper19_ae.Layout.{redo_cacheline_cnt, get_ref_cnt_from_info}
use sosp_paper19_ae.Handle.{Shm}
use sosp_paper19_ae.Redo.{
  log_saved_ref_cnt, log_ref, newest_log, write_if, mark_leaking, redo_ref_cnt,
}

-- The saved count has 16 bits, and `get_ref_cnt_from_info` reads above them.
mark_leaking_none : (log : ℕ) (m : Mem) → mark_leaking log m ≡ m
unfolding mark_leaking log_saved_ref_cnt get_ref_cnt_from_info
mark_leaking_none log m = ground arith

-- The redo of a dead thread writes no word but the logged reference: its branch that marks the
-- segment of the object as POTENTIAL_LEAKING is never taken.
pub redo_ref_cnt-other :
    (s : Shm) (m : Mem) (a : ℕ)
    → a ≢ log_ref m (newest_log redo_cacheline_cnt s.tls_offset m)
    → redo_ref_cnt s m a ≡ m a
unfolding redo_ref_cnt write_if store
redo_ref_cnt-other s m a ne =
    rw (mark_leaking_none (newest_log redo_cacheline_cnt s.tls_offset m) _) (ground arith)
