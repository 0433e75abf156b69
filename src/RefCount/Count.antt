-- ===== src/RefCount/Count.antt =====
-- What `link_reference` and `unlink_reference` do to the reference, the object and the era of the
-- thread, and that they leave the rest above the hash tables alone.
use sosp_paper19_ae.Base.{ℕ, ◌+◌, ◌≤◌, ◌<◌, ◌≡◌, inr, arith, ◌==◌, if◌then◌else◌, ◌-◌, ne→==, refl}
use sosp_paper19_ae.Memory.{Mem, store, load32, store32}
use sosp_paper19_ae.Layout.{
  hash_table_start, max_thread, ref_info_at, tls_at, link_ref, unlink_ref, pack_ref_info,
  get_ref_cnt_from_info, era,
}
use sosp_paper19_ae.Handle.{Shm, current_era, advance_era}
use sosp_paper19_ae.Thread.{handle_of}
use sosp_paper19_ae.RefCount.{
  note_era, write_redo, log_link, count_link, link_reference, log_unlink, count_unlink,
  drop_reference,
}
use sosp_paper19_ae.RefCount.Frame.{HasClient, note_era-other, write_redo-other}

module _ (size i : ℕ) (few : i < max_thread) where
  abbrev s : Shm
  s = handle_of size i

  advance_era-high : (a : ℕ) (m : Mem) → hash_table_start ≤ a → advance_era s m a ≡ m a
  unfolding advance_era store32 load32 era store
  advance_era-high a m high = ground arith

  -- The log and the eras lie below the hash tables.
  write_redo-high :
      (func cnt e ref refed a : ℕ) (m : Mem)
      → hash_table_start ≤ a
      → write_redo (tls_at i) func cnt e ref refed m a ≡ m a
  write_redo-high func cnt e ref refed a m high =
      write_redo-other (tls_at i) func cnt e ref refed a m (inr (omega arith))

  note_era-high :
      (info a : ℕ) (m : Mem)
      → HasClient info
      → hash_table_start ≤ a
      → note_era (i + 1) info m a ≡ m a
  note_era-high info a m c high =
      note_era-other (i + 1) info a m (omega arith) (omega arith) c (inr (omega arith))

  module _ (ref refed : ℕ) (m : Mem) (c : HasClient (m (ref_info_at refed))) where
    abbrev info : ℕ
    info = m (ref_info_at refed)

    -- Above the hash tables, `link_reference` makes the reference lead to the object, packs the count
    -- of the object plus one with the thread and its era, and changes nothing else. The word of the
    -- object must name a client. The new count fits into its field if there was room for it.
    pub link_reference-high :
        (a : ℕ)
        → hash_table_start ≤ a
        → link_reference s ref refed m a ≡ (
            if a == ref
            then refed
            else if a == ref_info_at refed
            then pack_ref_info (i + 1) (get_ref_cnt_from_info info + 1) (current_era s m)
            else m a)
    unfolding link_reference count_link log_link store
    link_reference-high a high =
        let w =
          write_redo-high link_ref (get_ref_cnt_from_info info) (current_era s m) ref refed a
            (note_era (i + 1) info m) high in
        let n = note_era-high info a m c high in rw (advance_era-high a _ high, w, n)

    -- The era under which `unlink_reference` counts.
    abbrev pub unlink_era : ℕ
    unlink_era = current_era s (note_era (i + 1) info m)

    -- Above the hash tables, `unlink_reference` up to the freeing of the object clears the
    -- reference, takes one from the count of the object, under the thread and its era, and changes
    -- nothing else. The word of the object must name a client and have a count of at least 1.
    pub drop_reference-high :
        1 ≤ get_ref_cnt_from_info info
        → (a : ℕ) → hash_table_start ≤ a
        → drop_reference s ref refed m a ≡ (
            if a == ref
            then 0
            else if a == ref_info_at refed
            then pack_ref_info (i + 1) (get_ref_cnt_from_info info - 1) unlink_era
            else m a)
    unfolding drop_reference count_unlink log_unlink store
    drop_reference-high pos a high =
        let w =
          write_redo-high unlink_ref (get_ref_cnt_from_info info) unlink_era ref refed a
            (note_era (i + 1) info m) high in
        let n = note_era-high info a m c high in
        rw
          (
            advance_era-high a _ high,
            w,
            n,
            ne→== (get_ref_cnt_from_info info) 0 (omega (arith, pos)),
          )
          refl
