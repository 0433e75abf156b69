-- ===== src/Redo/Crash.antt =====
-- A thread dies inside `link_reference` or `unlink_reference`, and the monitor runs
-- `redo_ref_cnt` on the region that it has left.
use sosp_paper19_ae.Base.{ℕ, ◌+◌, ◌^◌, ◌≤◌, ◌<◌, ◌≡◌, refl, ◌∙◌, arith}
use sosp_paper19_ae.Memory.{store_self, Mem, store, load32}
use sosp_paper19_ae.Layout.{
  segments_area_start, max_thread, ref_info_at, tls_at, link_ref, unlink_ref, pack_ref_info,
  get_ref_cnt_from_info, get_lenum_from_info, get_lcid_from_info, era,
}
use sosp_paper19_ae.Handle.{Shm, current_era, advance_era}
use sosp_paper19_ae.Thread.{handle_of}
use sosp_paper19_ae.RefCount.{
  note_era, cnt_pred, log_link, count_link, link_reference, log_unlink, count_unlink,
  drop_reference,
}
use sosp_paper19_ae.RefCount.Frame.{HasClient}
use sosp_paper19_ae.Redo.{dead_thread, is_counted, write_if, redo_ref_cnt}
use sosp_paper19_ae.Redo.Logged.{
  OlderLogs, dead_thread_lem, redo-link, redo-unlink, logged_link, logged_unlink, current_era-lt,
  ref_cnt-lt, own_count-decides,
}

module _ (size i : ℕ) (few : i < max_thread) where
  abbrev tls : ℕ
  tls = tls_at i

  abbrev s : Shm
  s = handle_of size i

  -- With the word of the object counted by the thread itself, the assignment is made.
  own_count-write :
      (cnt cur ref refed x : ℕ) (v : Mem)
      → cnt < 2 ^ 16
      → cur < 2 ^ 32
      → v (ref_info_at refed) ≡ pack_ref_info (i + 1) cnt cur
      → write_if
          (is_counted
            (i + 1)
            (get_lcid_from_info (v (ref_info_at refed)))
            (get_lenum_from_info (v (ref_info_at refed)))
            cur
            (λ j. load32 v (era j (i + 1))))
          ref
          x
          v
        ≡ store v ref x
  unfolding write_if
  own_count-write cnt cur ref refed x v a b e =
      let own = own_count-decides size i few cnt cur (λ j. load32 v (era j (i + 1))) a b in
      rw (e, own)

  redone_link :
      (ref refed : ℕ) (m : Mem)
      → segments_area_start ≤ refed
      → HasClient (m (ref_info_at refed))
      → get_ref_cnt_from_info (m (ref_info_at refed)) + 1 < 2 ^ 16
      → OlderLogs size i few m (current_era s m)
      → redo_ref_cnt s (count_link s ref refed m) ≡ store (count_link s ref refed m) ref refed
  redone_link ref refed m high c room older =
      let cnt = get_ref_cnt_from_info (m (ref_info_at refed)) in
      redo-link tls link_ref cnt (current_era s m) ref refed (count_link s ref refed m)
        (logged_link size i few ref refed m high c older) (omega arith)
        (ref_cnt-lt size i few (m (ref_info_at refed))) (current_era-lt size i few m) size (i + 1)
        refl
      ∙ own_count-write (cnt + 1) (current_era s m) ref refed refed (count_link s ref refed m) room
          (current_era-lt size i few m)
          (unfold count_link in store_self (log_link s ref refed m) (ref_info_at refed) _)

  redone_unlink :
      (ref refed : ℕ) (m : Mem)
      → segments_area_start ≤ refed
      → HasClient (m (ref_info_at refed))
      → 0 < get_ref_cnt_from_info (m (ref_info_at refed))
      → OlderLogs size i few m (current_era s (note_era (i + 1) (m (ref_info_at refed)) m))
      → redo_ref_cnt s (count_unlink s ref refed m) ≡ store (count_unlink s ref refed m) ref 0
  redone_unlink ref refed m high c some_left older =
      let cnt = get_ref_cnt_from_info (m (ref_info_at refed)) in
      let m1 = note_era (i + 1) (m (ref_info_at refed)) m in
      redo-unlink tls unlink_ref cnt (current_era s m1) ref refed (count_unlink s ref refed m)
        (logged_unlink size i few ref refed m high c older) (omega arith)
        (ref_cnt-lt size i few (m (ref_info_at refed))) (current_era-lt size i few m1) size (i + 1)
        refl
      ∙ own_count-write (cnt_pred cnt) (current_era s m1) ref refed 0 (count_unlink s ref refed m)
          (ground (arith, ref_cnt-lt size i few (m (ref_info_at refed))))
          (current_era-lt size i few m1)
          (unfold count_unlink in store_self (log_unlink s ref refed m) (ref_info_at refed) _)

  module _ (ref refed : ℕ) (m : Mem) (high : segments_area_start ≤ refed)
      (c : HasClient (m (ref_info_at refed))) where
    -- A thread that dies after the compare-exchange of `link_reference` and before the assignment
    -- loses nothing: once `redo_ref_cnt` has run and the era has advanced, the region is the one
    -- that the whole of `link_reference` leaves. The count must have room, and the other logs of the
    -- thread must be of earlier eras.
    pub link_reference-redo :
        get_ref_cnt_from_info (m (ref_info_at refed)) + 1 < 2 ^ 16
        → OlderLogs size i few m (current_era s m)
        → advance_era s (redo_ref_cnt (dead_thread size (tls_at i)) (count_link s ref refed m))
          ≡ link_reference s ref refed m
    unfolding link_reference
    link_reference-redo room older =
        let done = redone_link ref refed m high c room older in rw (dead_thread_lem size i, done)

    -- A thread that dies after the compare-exchange of `unlink_reference` and before it clears the
    -- reference loses nothing: once `redo_ref_cnt` has run and the era has advanced, the region is
    -- the one that `unlink_reference` leaves, up to the freeing of an object that no other
    -- reference leads to. The count must be at least 1, and the other logs of the thread must be of
    -- earlier eras.
    pub unlink_reference-redo :
        0 < get_ref_cnt_from_info (m (ref_info_at refed))
        → OlderLogs size i few m (current_era s (note_era (i + 1) (m (ref_info_at refed)) m))
        → advance_era s (redo_ref_cnt (dead_thread size (tls_at i)) (count_unlink s ref refed m))
          ≡ drop_reference s ref refed m
    unfolding drop_reference
    unlink_reference-redo some_left older =
        let done = redone_unlink ref refed m high c some_left older in
        rw (dead_thread_lem size i, done)
