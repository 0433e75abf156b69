-- ===== src/Transfer/Receive.antt =====
-- `cxl_unwrap` takes the first object out of the queue and keeps its count.
use sosp_paper19_ae.Base.{
  ℕ, ◌+◌, ◌%◌, ◌^◌, ◌≤◌, ◌<◌, ◌≡◌, refl, ap, ◌∙◌, ◌≢◌, ◌⊎◌, List, ◌∷◌, arith, ◌==◌, if◌then◌else◌,
  eq→==, ne→==,
}
use sosp_paper19_ae.Memory.{Mem, store, ok}
use sosp_paper19_ae.Layout.{
  hash_table_start, message_buffer_size, max_thread, cxlobj_size, ref_info_at, root_ref_size,
  root_flags_at, message_queue_size, end_at, buffer_at, pack_ref_info, get_ref_cnt_from_info,
  get_lenum_from_info, get_lcid_from_info,
}
use sosp_paper19_ae.Handle.{Shm, current_era}
use sosp_paper19_ae.Layout.RefInfo.{pack_ref_info_fields}
use sosp_paper19_ae.Thread.{handle_of}
use sosp_paper19_ae.Alloc.{thread_base_ref_alloc, inc_root_ref_cnt}
use sosp_paper19_ae.RefCount.{others_left, link_reference, drop_reference, unlink_reference}
use sosp_paper19_ae.RefCount.Frame.{HasClient}
use sosp_paper19_ae.RefCount.Count.{link_reference-high, unlink_era, drop_reference-high}
use sosp_paper19_ae.Redo.Logged.{current_era-lt}
use sosp_paper19_ae.Transfer.{advance_start, receive}
use sosp_paper19_ae.Transfer.Ring.{IsRing, Contains-frame_behind}
use sosp_paper19_ae.Transfer.Send.{IsApart}

-- A block of 16 bytes lies outside the queue and does not hold the count of the object.
pub record IsFree (q object tbr : ℕ) : Type 0 where
  pub high : hash_table_start ≤ tbr
  pub outside : (tbr + root_ref_size ≤ q) ⊎ (q + message_queue_size ≤ tbr)
  pub no_count : (ref_info_at object < tbr) ⊎ (tbr + root_ref_size ≤ ref_info_at object)

module _ (size i : ℕ) (few : i < max_thread) (q x tbr : ℕ) (m : Mem) (high : hash_table_start ≤ q)
    (high' : hash_table_start ≤ x) (apart : IsApart q x) (free : IsFree q x tbr)
    (c : HasClient (m (ref_info_at x))) where
  abbrev s : Shm
  s = handle_of size i

  abbrev cnt : ℕ
  cnt = get_ref_cnt_from_info (m (ref_info_at x))

  -- R1: the new root reference is linked and counts one handle.
  abbrev linked : Mem
  linked = inc_root_ref_cnt tbr (link_reference s tbr x m)

  linked-high :
      (a : ℕ)
      → hash_table_start ≤ a
      → a ≢ root_flags_at tbr
      → linked a ≡ (
          if a == tbr
          then x
          else if a == ref_info_at x
          then pack_ref_info (i + 1) (cnt + 1) (current_era s m)
          else m a)
  unfolding inc_root_ref_cnt store
  linked-high a ha ne =
      rw (ne→== a (root_flags_at tbr) ne) (link_reference-high size i few tbr x m c a ha)

  linked-word : linked (ref_info_at x) ≡ pack_ref_info (i + 1) (cnt + 1) (current_era s m)
  linked-word =
      linked-high (ref_info_at x) (omega arith) (ground (arith, free.no_count))
      ∙ rw
          (
            ne→== (ref_info_at x) tbr (ground (arith, free.no_count)),
            eq→== (ref_info_at x) (ref_info_at x) refl,
          )
          refl

  -- R2 and R3.
  abbrev received : Mem
  received = advance_start q (drop_reference s (buffer_at q (m q)) x linked)

  linked-queue_word : (a : ℕ) → q ≤ a → a < q + message_queue_size → linked a ≡ m a
  linked-queue_word a lo hi =
      linked-high a (omega arith) (ground (arith, free.outside))
      ∙ rw
          (
            ne→== a tbr (ground (arith, free.outside)),
            ne→== a (ref_info_at x) (ground (arith, apart)),
          )
          refl

  module _ (room : cnt + 1 < 2 ^ 16) where
    packed :
        (get_lcid_from_info (linked (ref_info_at x)) ≡ i + 1)
        × (get_ref_cnt_from_info (linked (ref_info_at x)) ≡ cnt + 1)
        × (get_lenum_from_info (linked (ref_info_at x)) ≡ current_era s m)
    packed = rw linked-word (
        pack_ref_info_fields (i + 1) (cnt + 1) (current_era s m) (omega arith) room
          (current_era-lt size i few m))

    linked-HasClient : HasClient (linked (ref_info_at x))
    linked-HasClient = rw packed.0 (omega arith, omega arith)

    linked-counted : 1 ≤ get_ref_cnt_from_info (linked (ref_info_at x))
    linked-counted = omega (arith, packed.1)

    abbrev slot : ℕ
    slot = buffer_at q (m q)

    abbrev dropped : Mem
    dropped = drop_reference s slot x linked

    dropped-other :
        (a : ℕ) → hash_table_start ≤ a → a ≢ slot → a ≢ ref_info_at x → dropped a ≡ linked a
    dropped-other a ha ne ne' =
        drop_reference-high size i few slot x linked linked-HasClient linked-counted a ha
        ∙ rw (ne→== a slot ne, ne→== a (ref_info_at x) ne') refl

    received-other : (a : ℕ) → a ≢ q → received a ≡ dropped a
    unfolding advance_start store
    received-other a ne = rw (ne→== a q ne) refl

    received-queue_word :
        (a : ℕ) → q ≤ a → a < q + message_queue_size → a ≢ q → a ≢ slot → received a ≡ m a
    received-queue_word a lo hi ne ne' =
        received-other a ne
        ∙ dropped-other a (omega arith) ne' (ground (arith, apart))
        ∙ linked-queue_word a lo hi

    received-tbr : m q < message_buffer_size → received tbr ≡ x
    received-tbr lt =
        received-other tbr (ground (arith, free.outside))
        ∙ dropped-other tbr free.high (ground (arith, free.outside)) (ground (arith, free.no_count))
        ∙ linked-high tbr free.high (omega arith)
        ∙ rw (eq→== tbr tbr refl) refl

    received-start : m q < message_buffer_size → received q ≡ (m q + 1) % message_buffer_size
    unfolding advance_start store
    received-start lt =
        rw
          (
            eq→== q q refl,
            drop_reference-high size i few slot x linked linked-HasClient linked-counted q high,
            ne→== q slot (omega arith),
            ne→== q (ref_info_at x) (ground (arith, apart)),
            linked-queue_word q (omega arith) (omega arith),
          )
          (omega arith)

    module _ (lt : m q < message_buffer_size) where
      -- The count of the object once both updates are made.
      received-word :
          dropped (ref_info_at x)
          ≡ pack_ref_info (i + 1) cnt (unlink_era size i few slot x linked linked-HasClient)
      received-word =
          drop_reference-high size i few slot x linked linked-HasClient linked-counted
            (ref_info_at x) (omega arith)
          ∙ rw
              (
                ne→== (ref_info_at x) slot (ground (arith, apart)),
                eq→== (ref_info_at x) (ref_info_at x) refl,
                packed.1,
              )
              (ap
                (λ k.
                  pack_ref_info (i + 1) k (unlink_era size i few slot x linked linked-HasClient))
                (omega arith))

      received-cnt : get_ref_cnt_from_info (received (ref_info_at x)) ≡ cnt
      received-cnt =
          ap get_ref_cnt_from_info
            (received-other (ref_info_at x) (ground (arith, apart)) ∙ received-word)
          ∙ (pack_ref_info_fields (i + 1) cnt (unlink_era size i few slot x linked linked-HasClient)
              (omega arith) (omega arith) (current_era-lt size i few _)).1

      received-IsRing : {xs : List ℕ} → IsRing m q (x ∷ xs) → IsRing received q xs
      received-IsRing {xs} h = record {
        start_lt = rw (received-start lt) (omega arith);
        room = omega (arith, h.room);
        holds =
            rw
              (
                received-start lt,
                received-queue_word (end_at q) (omega arith) (omega arith) (omega arith)
                    (omega arith),
              )
              (Contains-frame_behind m received q (m q) 1 ((m q + 1) % message_buffer_size) xs
                (m (end_at q)) lt (omega arith) refl (omega (arith, h.room))
                (λ j small ne ne'.
                  received-queue_word (buffer_at q j) (omega arith) (omega arith) (omega arith)
                    (omega arith))
                h.holds.3);
      }

      unlink-dropped : 0 < cnt → unlink_reference s slot x linked ≡ ok tt dropped
      unfolding unlink_reference others_left
      unlink-dropped held = rw packed.1 (ground arith)

      receive-run :
          (fuel : ℕ) (m0 : Mem)
          → thread_base_ref_alloc fuel s m0 ≡ ok tbr m
          → 0 < cnt
          → m slot ≡ x
          → receive fuel s q m0 ≡ ok (record { tbr = tbr; value = x + cxlobj_size }) received
      unfolding receive
      receive-run fuel m0 alloc held at =
          let nz = ne→== tbr 0 (omega (arith, free.high)) in
          let start = linked-queue_word q (omega arith) (omega arith) in
          let object = linked-queue_word slot (omega arith) (omega arith) ∙ at in
          rw (alloc, nz, at, start, object, unlink-dropped held, received-tbr lt) refl

    -- Given a root reference `tbr` from the allocator, which leaves the region `m`, the receiver
    -- gets the object at the head of the queue: the reference leads to it, the queue holds the
    -- other objects, and the count of the object is what it was, at least 1. The count must have
    -- room for one more, and the root reference, the queue and the count must not overlap.
    pub receive-IsRing :
        (fuel : ℕ) (m0 : Mem) (xs : List ℕ)
        → thread_base_ref_alloc fuel s m0 ≡ ok tbr m
        → IsRing m q (x ∷ xs)
        → 0 < cnt
        → (m' : Mem) × (receive fuel s q m0 ≡ ok (record { tbr = tbr; value = x + cxlobj_size }) m')
          × IsRing m' q xs
          × (m' tbr ≡ x)
          × (get_ref_cnt_from_info (m' (ref_info_at x)) ≡ cnt)
    receive-IsRing fuel m0 xs alloc h held = (
      received,
      receive-run h.start_lt fuel m0 alloc held h.holds.1,
      received-IsRing h.start_lt h,
      received-tbr h.start_lt,
      received-cnt h.start_lt,
    )
