-- ===== src/Redo/Tests.antt =====
-- Thread 1 dies while it links a second reference to an object, or drops one.
use sosp_paper19_ae.Base.{zero, suc, ◌<◌, ℕ, ◌+◌, ◌≡◌, refl, inr, arith}
use sosp_paper19_ae.Memory.{Mem, store, store32, load32}
use sosp_paper19_ae.Layout.{
  max_thread, segments_area_start, ref_info_at, tls_at, pack_ref_info, get_ref_cnt_from_info, era,
  get_lcid_from_info, get_lenum_from_info,
}
use sosp_paper19_ae.Handle.{current_era, advance_era}
use sosp_paper19_ae.Thread.{handle_of}
use sosp_paper19_ae.RefCount.{
  log_unlink, note_era, log_link, count_link, link_reference, count_unlink, drop_reference,
}
use sosp_paper19_ae.RefCount.Frame.{HasClient}
use sosp_paper19_ae.Redo.{dead_thread, redo_ref_cnt, log_era, max_seen}
use sosp_paper19_ae.Redo.Frame.{redo_ref_cnt-other}
use sosp_paper19_ae.Redo.Logged.{OlderLogs}
use sosp_paper19_ae.Redo.Crash.{link_reference-redo, unlink_reference-redo}
use sosp_paper19_ae.Redo.BeforeUnlink.{unlink_reference-not_redone}
use sosp_paper19_ae.Redo.Before.{link_reference-not_redone}

abbrev object : ℕ
object = segments_area_start + 8192

abbrev ref : ℕ
ref = segments_area_start + 12288

-- Thread 1 is in era 2 and has made the object in era 1.
abbrev region : Mem
region = store32 (store (λ _. 0) (ref_info_at object) (pack_ref_info 1 1 1)) (era 1 1) 2

one_client : HasClient (region (ref_info_at object))
unfolding store32 store era pack_ref_info get_lcid_from_info
one_client = (omega arith, omega arith)

one_counted : get_ref_cnt_from_info (region (ref_info_at object)) ≡ 1
unfolding store32 store era pack_ref_info get_ref_cnt_from_info
one_counted = refl

era_two : current_era (handle_of 0 0) region ≡ 2
unfolding current_era load32 store32 store era
era_two = refl

no_logs : OlderLogs 0 0 (omega arith) region (current_era (handle_of 0 0) region)
unfolding log_era store32 store era
no_logs j lt ne = rw era_two (ground arith)

link_reference-redo_example :
    advance_era
      (handle_of 0 0)
      (redo_ref_cnt (dead_thread 0 (tls_at 0)) (count_link (handle_of 0 0) ref object region))
    ≡ link_reference (handle_of 0 0) ref object region
link_reference-redo_example =
    link_reference-redo 0 0 (omega arith) ref object region (omega arith) one_client
      (omega (arith, one_counted)) no_logs

note_region : note_era 1 (region (ref_info_at object)) region ≡ region
unfolding note_era load32 store32 store era pack_ref_info get_lcid_from_info get_lenum_from_info
note_region = refl

unlink_reference-redo_example :
    advance_era
      (handle_of 0 0)
      (redo_ref_cnt (dead_thread 0 (tls_at 0)) (count_unlink (handle_of 0 0) ref object region))
    ≡ drop_reference (handle_of 0 0) ref object region
unlink_reference-redo_example =
    unlink_reference-redo 0 0 (omega arith) ref object region (omega arith) one_client
      (omega (arith, one_counted)) (rw note_region no_logs)

own_older : get_lenum_from_info (region (ref_info_at object)) ≡ 1
unfolding store32 store era pack_ref_info get_lenum_from_info
own_older = refl

unseen : (n : ℕ) → max_seen n 1 (λ j. load32 region (era j 1)) < 2
unfolding max_seen load32 store32 store era
unseen zero = omega arith
unseen (suc n) = ground (arith, unseen n)

link_reference-not_redone_example :
    redo_ref_cnt (dead_thread 0 (tls_at 0)) (log_link (handle_of 0 0) ref object region)
    ≡ log_link (handle_of 0 0) ref object region
link_reference-not_redone_example =
    link_reference-not_redone 0 0 (omega arith) ref object region (omega arith) one_client no_logs
      (inr (rw era_two (omega (arith, own_older)))) (rw era_two (unseen max_thread))

-- No log: address 8 is not the logged reference, which is NULL.
redo_ref_cnt-other_example : redo_ref_cnt (dead_thread 0 (tls_at 0)) (λ _. 0) 8 ≡ 0
redo_ref_cnt-other_example = redo_ref_cnt-other (dead_thread 0 (tls_at 0)) (λ _. 0) 8 (omega arith)

unlink_reference-not_redone_example :
    redo_ref_cnt (dead_thread 0 (tls_at 0)) (log_unlink (handle_of 0 0) ref object region)
    ≡ log_unlink (handle_of 0 0) ref object region
unlink_reference-not_redone_example =
    unlink_reference-not_redone 0 0 (omega arith) ref object region (omega arith) one_client
      (rw note_region no_logs) (inr (rw (note_region, era_two) (omega (arith, own_older))))
      (rw (note_region, era_two) (unseen max_thread))
