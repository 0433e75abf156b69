-- ===== src/Redo/BeforeUnlink.antt =====
-- A thread dies in `unlink_reference` after it has written its log and before the compare-exchange.
use sosp_paper19_ae.Base.{ℕ, ◌+◌, ◌≤◌, ◌<◌, ◌≡◌, refl, ◌∙◌, ◌≢◌, ◌⊎◌, inr, arith}
use sosp_paper19_ae.Memory.{Mem, load32}
use sosp_paper19_ae.Layout.{
  segments_area_start, max_thread, ref_info_at, tls_at, unlink_ref, get_ref_cnt_from_info,
  get_lenum_from_info, get_lcid_from_info, era,
}
use sosp_paper19_ae.Handle.{Shm, current_era}
use sosp_paper19_ae.Thread.{handle_of}
use sosp_paper19_ae.RefCount.{note_era, log_unlink}
use sosp_paper19_ae.RefCount.Frame.{HasClient, note_era-other, write_redo-other}
use sosp_paper19_ae.Redo.{dead_thread, max_seen, redo_ref_cnt}
use sosp_paper19_ae.Redo.Logged.{
  OlderLogs, dead_thread_lem, redo-unlink, write_redo-IsLogged, current_era-lt, ref_cnt-lt,
  IsLogged,
}
use sosp_paper19_ae.Redo.Before.{
  note_era-eras, write_redo-eras, max_seen-cong, not_counted, write_if-false,
}

module _ (size i : ℕ) (few : i < max_thread) (ref refed : ℕ) (m : Mem) where
  abbrev s : Shm
  s = handle_of size i

  abbrev info : ℕ
  info = m (ref_info_at refed)

  -- The era that the log names.
  abbrev cur : ℕ
  cur = current_era s (note_era (i + 1) info m)

  log_unlink-word :
      segments_area_start ≤ refed
      → HasClient info
      → log_unlink s ref refed m (ref_info_at refed) ≡ info
  unfolding log_unlink
  log_unlink-word high c =
      write_redo-other (tls_at i) unlink_ref _ cur ref refed (ref_info_at refed)
        (note_era (i + 1) info m) (inr (omega arith))
      ∙ note_era-other (i + 1) info (ref_info_at refed) m (omega arith) (omega arith) c
          (inr (omega arith))

  log_unlink-seen :
      HasClient info
      → max_seen max_thread (i + 1) (λ j. load32 (log_unlink s ref refed m) (era j (i + 1)))
        ≡ max_seen max_thread (i + 1) (λ j. load32 m (era j (i + 1)))
  unfolding log_unlink
  log_unlink-seen c = max_seen-cong max_thread (i + 1) _ _ λ j lt ne.
      write_redo-eras i unlink_ref _ cur ref refed (i + 1) j (note_era (i + 1) info m) (omega arith)
        lt
      ∙ note_era-eras (i + 1) info j m (omega arith) (omega arith) c ne

  log_unlink-IsLogged :
      HasClient info
      → OlderLogs size i few m cur
      → IsLogged
          (tls_at i)
          unlink_ref
          (get_ref_cnt_from_info info)
          cur
          ref
          refed
          (log_unlink s ref refed m)
  unfolding log_unlink
  log_unlink-IsLogged c older =
      write_redo-IsLogged size i few unlink_ref (get_ref_cnt_from_info info) cur ref refed info m c
        older

  -- A thread that dies in `unlink_reference` before its compare-exchange has counted nothing, and
  -- `redo_ref_cnt` writes nothing, so that the reference still leads to the object, if neither the
  -- object nor another thread shows the era of the log, and the other logs are of earlier eras.
  pub unlink_reference-not_redone :
      segments_area_start ≤ refed
      → HasClient info
      → OlderLogs size i few m cur
      → (get_lcid_from_info info ≢ i + 1) ⊎ (get_lenum_from_info info ≢ cur)
      → max_seen max_thread (i + 1) (λ j. load32 m (era j (i + 1))) < cur
      → redo_ref_cnt (dead_thread size (tls_at i)) (log_unlink s ref refed m)
        ≡ log_unlink s ref refed m
  unlink_reference-not_redone high c older own unseen = rw (dead_thread_lem size i) (
      redo-unlink (tls_at i) unlink_ref (get_ref_cnt_from_info info) cur ref refed
        (log_unlink s ref refed m) (log_unlink-IsLogged c older) (omega arith)
        (ref_cnt-lt size i few info) (current_era-lt size i few (note_era (i + 1) info m)) size
        (i + 1) refl
      ∙ write_if-false _ ref 0 (log_unlink s ref refed m) (
          not_counted (i + 1) _ _ cur _ (rw (log_unlink-word high c) own)
            (rw (log_unlink-seen c) unseen)))
