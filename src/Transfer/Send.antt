-- ===== src/Transfer/Send.antt =====
-- `sent_to` puts an object behind those that the queue holds.
use sosp_paper19_ae.Base.{
  ℕ, ◌+◌, ◌%◌, ◌≤◌, ◌<◌, ◌≡◌, refl, ◌∙◌, ◌≢◌, ◌⊎◌, inl, inr, true, false, List, [], ◌∷◌, ◌++◌,
  arith, ℕ_discrete, eq→==, ne→==, length, length-append,
}
use sosp_paper19_ae.Memory.{Mem, store, ok, fault}
use sosp_paper19_ae.Layout.{
  hash_table_start, message_buffer_size, max_thread, ref_info_at, message_queue_size, end_at,
  buffer_at,
}
use sosp_paper19_ae.Handle.{Shm}
use sosp_paper19_ae.Thread.{handle_of}
use sosp_paper19_ae.Alloc.{CxlRef}
use sosp_paper19_ae.RefCount.{link_reference}
use sosp_paper19_ae.RefCount.Frame.{HasClient}
use sosp_paper19_ae.RefCount.Count.{link_reference-high}
use sosp_paper19_ae.Transfer.{cxl_wrap, send, sent_to}
use sosp_paper19_ae.Transfer.Ring.{
  IsRing, Contains-frame, Contains-append, IsRing-end, is_full-length,
}

-- The word of an object's count is not in the queue.
abbrev pub IsApart : ℕ → ℕ → Type 0
IsApart q object = (ref_info_at object < q) ⊎ (q + message_queue_size ≤ ref_info_at object)

module _ (size i : ℕ) (few : i < max_thread) (q : ℕ) (high : hash_table_start ≤ q) where
  abbrev s : Shm
  s = handle_of size i

  module _ (m : Mem) (object : ℕ) (c : HasClient (m (ref_info_at object)))
      (apart : IsApart q object) where
    -- A word of the queue other than the slot keeps its value.
    link-queue_word :
        (e a : ℕ)
        → q ≤ a
        → a < q + message_queue_size
        → a ≢ buffer_at q e
        → link_reference s (buffer_at q e) object m a ≡ m a
    link-queue_word e a lo hi ne =
        link_reference-high size i few (buffer_at q e) object m c a (omega arith)
        ∙ rw (ne→== a (buffer_at q e) ne, ne→== a (ref_info_at object) other) refl
      where
        other : a ≢ ref_info_at object
        other = ground arith

    link-slot : (e : ℕ) → link_reference s (buffer_at q e) object m (buffer_at q e) ≡ object
    link-slot e =
        link_reference-high size i few (buffer_at q e) object m c (buffer_at q e) (omega arith)
        ∙ rw (eq→== (buffer_at q e) (buffer_at q e) refl) refl

    abbrev e : ℕ
    e = m (end_at q)

    module _ (lt : e < message_buffer_size) where
      send-start : send s q object m q ≡ m q
      unfolding send store
      send-start =
          rw (ne→== q (end_at q) (omega arith))
            (link-queue_word e q (omega arith) (omega arith) (omega arith))

      send-end : send s q object m (end_at q) ≡ (e + 1) % message_buffer_size
      unfolding send store
      send-end =
          rw
            (
              eq→== (end_at q) (end_at q) refl,
              link-queue_word e (end_at q) (omega arith) (omega arith) (omega arith),
            )
            (omega arith)

      send-slot : send s q object m (buffer_at q e) ≡ object
      unfolding send store
      send-slot = rw (ne→== (buffer_at q e) (end_at q) (omega arith)) (link-slot e)

      send-other :
          (j : ℕ)
          → j < message_buffer_size
          → j ≢ e
          → send s q object m (buffer_at q j) ≡ m (buffer_at q j)
      unfolding send store
      send-other j small ne =
          rw (ne→== (buffer_at q j) (end_at q) (omega arith))
            (link-queue_word e (buffer_at q j) (omega arith) (omega arith) (omega arith))

    send-IsRing :
        {xs : List ℕ}
        → IsRing m q xs
        → length xs ≢ 15
        → object ≢ 0
        → IsRing (send s q object m) q (xs ++ object ∷ [])
    send-IsRing {xs} h space ne =
        let lt : e < message_buffer_size = omega (arith, IsRing-end h) in
        record {
          start_lt = rw (send-start lt) h.start_lt;
          room = omega (arith, length-append xs (object ∷ []), h.room);
          holds =
              rw (send-start lt, send-end lt)
                (Contains-append (send s q object m) q (m q) xs e object lt
                  (Contains-frame m (send s q object m) q (m q) xs e h.start_lt h.room
                    (send-other lt) h.holds)
                  (send-slot lt) ne);
        }

  -- `sent_to` of the NULL handle faults. Of another it refuses exactly when 15 objects are in the queue, and changes nothing then. Otherwise
  -- it puts the object of the reference behind those in the queue. The object is not NULL, its word
  -- names a client, and its count lies outside the queue.
  pub sent_to-IsRing :
      (m : Mem) (r : CxlRef) (xs : List ℕ)
      → IsRing m q xs
      → HasClient (m (ref_info_at (m r.tbr)))
      → IsApart q (m r.tbr)
      → m r.tbr ≢ 0
      → ((r.tbr ≡ 0) × (sent_to s q r m ≡ fault))
        ⊎ ((r.tbr ≢ 0) × (length xs ≡ 15) × (sent_to s q r m ≡ ok false m))
        ⊎ ((r.tbr ≢ 0)
            × (length xs ≢ 15)
            × ((m' : Mem) × (sent_to s q r m ≡ ok true m') × IsRing m' q (xs ++ m r.tbr ∷ [])))
  unfolding sent_to cxl_wrap
  sent_to-IsRing m r xs h c apart ne = elim (ℕ_discrete r.tbr 0) [
    | yes null ↦ inl (null, rw null refl)
    | no root ↦ elim (ℕ_discrete (length xs) 15) [
      | yes full ↦ inr (
          inl
            (root, full, rw (ne→== r.tbr 0 root, is_full-length h, eq→== (length xs) 15 full) refl))
      | no space ↦ inr (
          inr (
            root,
            space,
            (
              send s q (m r.tbr) m,
              rw (ne→== r.tbr 0 root, is_full-length h, ne→== (length xs) 15 space) refl,
              send-IsRing m (m r.tbr) c apart h space ne,
            ),
          ))
    ]
  ]
