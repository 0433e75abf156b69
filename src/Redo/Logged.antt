-- ===== src/Redo/Logged.antt =====
-- What `redo_ref_cnt` does with a region that holds the log of an update, and that the updates
-- leave such a region.
use sosp_paper19_ae.Base.{
  ℕ, ◌+◌, ◌*◌, ◌/◌, ◌%◌, ◌^◌, ◌≤◌, ◌<◌, ◌≡◌, refl, ap, ◌≢◌, ◌⊎◌, inl, inr, Bool, true, arith,
  dec_lt, eq→==,
}
use sosp_paper19_ae.Memory.{Mem, store, bits16, load32}
use sosp_paper19_ae.Layout.{
  segments_area_start, max_thread, redo_cacheline_cnt, ref_info_at, redo_at, tls_at, link_ref,
  unlink_ref, pack_ref_info, get_ref_cnt_from_info, get_lenum_from_info, get_lcid_from_info, era,
}
use sosp_paper19_ae.Handle.{Shm, current_era}
use sosp_paper19_ae.Thread.{handle_of}
use sosp_paper19_ae.RefCount.{
  note_era, redo_slot, write_redo, cnt_pred, log_link, count_link, log_unlink, count_unlink,
}
use sosp_paper19_ae.RefCount.Frame.{HasClient, note_era-other, write_redo-slot, write_redo-other}
use sosp_paper19_ae.Layout.RefInfo.{pack_ref_info_fields}
use sosp_paper19_ae.Redo.{
  dead_thread, log_func_id, log_saved_ref_cnt, log_era, newest_log, is_counted, need_redo, write_if,
  mark_leaking, redo_ref_cnt,
}
use sosp_paper19_ae.Redo.Newest.{newest_log-eq}

-- The monitor takes the thread of slot `i` for what it is.
pub dead_thread_lem : (size i : ℕ) → dead_thread size (tls_at i) ≡ handle_of size i
dead_thread_lem size i =
    ap (λ id. record { size = size; tls_offset = tls_at i; thread_id = id }) (omega arith)

-- The test on a number of 16 bits never succeeds.
pub mark_leaking_lem : (log : ℕ) (m : Mem) → mark_leaking log m ≡ m
unfolding mark_leaking get_ref_cnt_from_info log_saved_ref_cnt
mark_leaking_lem log m = let e : bits16 (m log) / 2 ^ 32 % 2 ^ 16 ≡ 0 = omega arith in rw e

module _ (tls func cnt cur ref refed : ℕ) (v : Mem) where
  -- The region holds the log of an update, and its other logs are older.
  pub record IsLogged : Type 0 where
    pub head : v (redo_slot tls cur) ≡ func + cnt * 2 ^ 16 + cur * 2 ^ 32
    pub logged_ref : v (redo_slot tls cur + 8) ≡ ref
    pub logged_refed : v (redo_slot tls cur + 16) ≡ refed
    pub older :
        (j : ℕ)
        → j < redo_cacheline_cnt
        → j ≢ cur % redo_cacheline_cnt
        → log_era v (redo_at tls j) < cur

  module _ (h : IsLogged) (fits : func < 2 ^ 16) (fits' : cnt < 2 ^ 16)
      (fits'' : cur < 2 ^ 32) where
    pub logged-era : log_era v (redo_slot tls cur) ≡ cur
    unfolding log_era
    logged-era = rw h.head (omega arith)

    pub logged-func : log_func_id v (redo_slot tls cur) ≡ func
    unfolding log_func_id
    logged-func = rw h.head (omega arith)

    pub logged-newest : newest_log redo_cacheline_cnt tls v ≡ redo_slot tls cur
    logged-newest =
        newest_log-eq v tls (cur % redo_cacheline_cnt)
          (record { in_range = omega arith; newer = λ j lt ne. rw logged-era (h.older j lt ne) })

    -- Whether the update is finished depends on the word of the object and on the eras of others.
    abbrev pub decides : ℕ → Bool
    decides id =
        is_counted id (get_lcid_from_info (v (ref_info_at refed)))
          (get_lenum_from_info (v (ref_info_at refed))) cur (λ j. load32 v (era j id))

    pub need-decides : (id : ℕ) → need_redo id (redo_slot tls cur) v ≡ decides id
    unfolding need_redo
    need-decides id = rw (h.logged_refed, logged-era)

    pub redo-link :
        (size id : ℕ)
        → func ≡ link_ref
        → redo_ref_cnt (record { size = size; tls_offset = tls; thread_id = id }) v
          ≡ write_if (decides id) ref refed v
    unfolding redo_ref_cnt
    redo-link size id e =
        rw (logged-newest, logged-func, e, need-decides id, h.logged_ref, h.logged_refed)

    pub redo-unlink :
        (size id : ℕ)
        → func ≡ unlink_ref
        → redo_ref_cnt (record { size = size; tls_offset = tls; thread_id = id }) v
          ≡ write_if (decides id) ref 0 v
    unfolding redo_ref_cnt
    redo-unlink size id e =
        rw (logged-newest, logged-func, e, need-decides id, h.logged_ref, mark_leaking_lem)

module _ (size i : ℕ) (few : i < max_thread) where
  abbrev pub tls : ℕ
  tls = tls_at i

  abbrev pub s : Shm
  s = handle_of size i

  -- A write outside the thread-local states leaves a log as it was.
  pub IsLogged-store :
      (func cnt cur ref refed w : ℕ) (v : Mem)
      → segments_area_start ≤ refed
      → IsLogged tls func cnt cur ref refed v
      → IsLogged tls func cnt cur ref refed (store v (ref_info_at refed) w)
  unfolding store log_era
  IsLogged-store func cnt cur ref refed w v high h = record {
    head = ground (arith, h.head);
    logged_ref = ground (arith, h.logged_ref);
    logged_refed = ground (arith, h.logged_refed);
    older = λ j lt ne. ground (arith, h.older j lt ne);
  }

  -- `write_redo` after `note_era` leaves a log, if the other logs are older.
  pub write_redo-IsLogged :
      (func cnt cur ref refed info : ℕ) (m : Mem)
      → HasClient info
      → ((j : ℕ)
          → j < redo_cacheline_cnt
          → j ≢ cur % redo_cacheline_cnt
          → log_era m (redo_at tls j) < cur)
      → IsLogged tls func cnt cur ref refed
          (write_redo tls func cnt cur ref refed (note_era (i + 1) info m))
  unfolding log_era
  write_redo-IsLogged func cnt cur ref refed info m c older =
      let w = write_redo-slot tls func cnt cur ref refed (note_era (i + 1) info m) in
      record {
        head = w.0;
        logged_ref = w.1;
        logged_refed = w.2;
        older = λ j lt ne.
            rw
              (
                write_redo-other tls func cnt cur ref refed (redo_at tls j)
                    (note_era (i + 1) info m) (apart j cur ne),
                note_era-other (i + 1) info (redo_at tls j) m (omega arith) (omega arith) c
                    (inr (omega arith)),
              )
              (older j lt ne);
      }
    where
      apart :
          (j cur : ℕ)
          → j ≢ cur % redo_cacheline_cnt
          → (redo_at tls j < redo_slot tls cur) ⊎ (redo_slot tls cur + 32 ≤ redo_at tls j)
      apart j cur ne = elim (dec_lt j (cur % redo_cacheline_cnt)) [
        | yes lt ↦ inl (omega arith)
        | no ge ↦ inr (omega arith)
      ]

  pub current_era-lt : (m : Mem) → current_era s m < 2 ^ 32
  unfolding current_era load32
  current_era-lt m = ground arith

  pub ref_cnt-lt : (info : ℕ) → get_ref_cnt_from_info info < 2 ^ 16
  unfolding get_ref_cnt_from_info
  ref_cnt-lt info = omega arith

  -- The other logs of the thread are of earlier eras.
  abbrev pub OlderLogs : Mem → ℕ → Type 0
  OlderLogs m cur =
      (j : ℕ)
      → j < redo_cacheline_cnt
      → j ≢ cur % redo_cacheline_cnt
      → log_era m (redo_at tls j) < cur

  -- An object whose word names the thread and its era is found counted.
  pub own_count-decides :
      (cnt cur : ℕ) (seen : ℕ → ℕ)
      → cnt < 2 ^ 16
      → cur < 2 ^ 32
      → is_counted
          (i + 1)
          (get_lcid_from_info (pack_ref_info (i + 1) cnt cur))
          (get_lenum_from_info (pack_ref_info (i + 1) cnt cur))
          cur
          seen
        ≡ true
  unfolding is_counted
  own_count-decides cnt cur seen a b =
      let f = pack_ref_info_fields (i + 1) cnt cur (omega arith) a b in
      rw (f.0, f.2, eq→== (i + 1) (i + 1) refl, eq→== cur cur refl) refl

  pub logged_link :
      (ref refed : ℕ) (m : Mem)
      → segments_area_start ≤ refed
      → HasClient (m (ref_info_at refed))
      → OlderLogs m (current_era s m)
      → IsLogged tls link_ref
          (get_ref_cnt_from_info (m (ref_info_at refed)))
          (current_era s m)
          ref
          refed
          (count_link s ref refed m)
  unfolding count_link log_link
  logged_link ref refed m high c older =
      let cnt = get_ref_cnt_from_info (m (ref_info_at refed)) in
      IsLogged-store link_ref cnt (current_era s m) ref refed
        (pack_ref_info (i + 1) (cnt + 1) (current_era s m)) (log_link s ref refed m) high
        (write_redo-IsLogged link_ref cnt (current_era s m) ref refed (m (ref_info_at refed)) m c
          older)

  pub logged_unlink :
      (ref refed : ℕ) (m : Mem)
      → segments_area_start ≤ refed
      → HasClient (m (ref_info_at refed))
      → OlderLogs m (current_era s (note_era (i + 1) (m (ref_info_at refed)) m))
      → IsLogged tls unlink_ref
          (get_ref_cnt_from_info (m (ref_info_at refed)))
          (current_era s (note_era (i + 1) (m (ref_info_at refed)) m))
          ref
          refed
          (count_unlink s ref refed m)
  unfolding count_unlink log_unlink
  logged_unlink ref refed m high c older =
      let cnt = get_ref_cnt_from_info (m (ref_info_at refed)) in
      let cur = current_era s (note_era (i + 1) (m (ref_info_at refed)) m) in
      IsLogged-store unlink_ref cnt cur ref refed (pack_ref_info (i + 1) (cnt_pred cnt) cur)
        (log_unlink s ref refed m) high
        (write_redo-IsLogged unlink_ref cnt cur ref refed (m (ref_info_at refed)) m c older)
