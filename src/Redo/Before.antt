-- ===== src/Redo/Before.antt =====
-- A thread dies after it has written its log and before the compare-exchange.
use sosp_paper19_ae.Base.{
  ℕ, zero, suc, ◌+◌, ◌-◌, ◌%◌, ◌≤◌, ◌<◌, ◌≡◌, refl, ◌∙◌, ◌≢◌, ◌⊎◌, inl, inr, Bool, false, arith,
  ltb, ◌==◌, Bool-cases, ==→ne,
}
use sosp_paper19_ae.Memory.{Mem, store, load32, store32}
use sosp_paper19_ae.Layout.{
  thread_local_vec_start, segments_area_start, max_thread, ref_info_at, tls_at, link_ref,
  get_ref_cnt_from_info, get_lenum_from_info, get_lcid_from_info, era,
}
use sosp_paper19_ae.Handle.{Shm, current_era}
use sosp_paper19_ae.Thread.{handle_of}
use sosp_paper19_ae.RefCount.{note_era, redo_slot, write_redo, log_link}
use sosp_paper19_ae.RefCount.Frame.{HasClient, note_era-other, write_redo-other}
use sosp_paper19_ae.Redo.{dead_thread, max_seen, is_counted, write_if, redo_ref_cnt}
use sosp_paper19_ae.Redo.Logged.{
  OlderLogs, dead_thread_lem, redo-link, write_redo-IsLogged, current_era-lt, ref_cnt-lt, IsLogged,
}

-- A 32-bit write elsewhere leaves a 32-bit word.
load32-store32_ne :
    (m : Mem) (a b v : ℕ) → a % 4 ≡ 0 → b % 4 ≡ 0 → a ≢ b → load32 (store32 m a v) b ≡ load32 m b
unfolding load32 store32 store
load32-store32_ne m a b v ha hb ne = ground arith

era-mod4 : (x y : ℕ) → era x y % 4 ≡ 0
unfolding era
era-mod4 x y = omega arith

era-apart :
    (id j k : ℕ) → 1 ≤ id → id ≤ max_thread → 1 ≤ k → k ≤ max_thread → j ≢ id → era id k ≢ era j id
unfolding era
era-apart id j k a b c d ne e = absurd (omega arith)

-- What others have seen is not changed by `note_era`.
pub note_era-eras :
    (id info j : ℕ) (m : Mem)
    → 1 ≤ id
    → id ≤ max_thread
    → HasClient info
    → j ≢ id
    → load32 (note_era id info m) (era j id) ≡ load32 m (era j id)
unfolding note_era
note_era-eras id info j m lo hi c ne =
    let k = get_lcid_from_info info in
    elim (Bool-cases (ltb (load32 m (era id k)) (get_lenum_from_info info))) [
      | inl newer ↦ rw newer (
          load32-store32_ne m _ _ _ (era-mod4 id k) (era-mod4 j id)
            (era-apart id j k lo hi c.0 c.1 ne))
      | inr older ↦ rw older
    ]

era-lt : (id j : ℕ) → id ≤ max_thread → j < max_thread → era j id < thread_local_vec_start
unfolding era
era-lt id j a b = omega arith

-- Nor by a log.
pub write_redo-eras :
    (slot func cnt e ref refed id j : ℕ) (m : Mem)
    → id ≤ max_thread
    → j < max_thread
    → load32 (write_redo (tls_at slot) func cnt e ref refed m) (era j id) ≡ load32 m (era j id)
unfolding load32
write_redo-eras slot func cnt e ref refed id j m hi lt = rw (
  write_redo-other (tls_at slot) func cnt e ref refed (era j id) m
      (inl (low (era j id) (era-lt id j hi lt))),
  write_redo-other (tls_at slot) func cnt e ref refed (era j id - 4) m
      (inl (low (era j id - 4) (low' (era j id) (era-lt id j hi lt)))),
)
  where
    low : (a : ℕ) → a < thread_local_vec_start → a < redo_slot (tls_at slot) e
    low a h = omega arith

    low' : (a : ℕ) → a < thread_local_vec_start → a - 4 < thread_local_vec_start
    low' a h = omega arith

pub max_seen-cong :
    (n id : ℕ) (f g : ℕ → ℕ)
    → ((j : ℕ) → j < n → j ≢ id → f j ≡ g j)
    → max_seen n id f ≡ max_seen n id g
unfolding max_seen
max_seen-cong zero id f g h = refl
max_seen-cong (suc n) id f g h = elim (Bool-cases (n == id)) [
  | inl here ↦ rw here (max_seen-cong n id f g (λ j lt. h j (omega arith)))
  | inr other ↦ rw (
    other,
    h n (omega arith) (==→ne n id other),
    max_seen-cong n id f g (λ j lt. h j (omega arith)),
  )
]

pub not_counted :
    (id lcid lenum cur : ℕ) (seen : ℕ → ℕ)
    → (lcid ≢ id) ⊎ (lenum ≢ cur)
    → max_seen max_thread id seen < cur
    → is_counted id lcid lenum cur seen ≡ false
unfolding is_counted
not_counted id lcid lenum cur seen (inl ne) lt = ground arith
not_counted id lcid lenum cur seen (inr ne) lt = ground arith

pub write_if-false : (b : Bool) (a v : ℕ) (m : Mem) → b ≡ false → write_if b a v m ≡ m
unfolding write_if
write_if-false b a v m e = rw e

module _ (size i : ℕ) (few : i < max_thread) (ref refed : ℕ) (m : Mem) where
  abbrev s : Shm
  s = handle_of size i

  log_link-word :
      segments_area_start ≤ refed
      → HasClient (m (ref_info_at refed))
      → log_link s ref refed m (ref_info_at refed) ≡ m (ref_info_at refed)
  unfolding log_link
  log_link-word high c =
      write_redo-other (tls_at i) link_ref _ (current_era s m) ref refed (ref_info_at refed)
        (note_era (i + 1) (m (ref_info_at refed)) m) (inr (omega arith))
      ∙ note_era-other (i + 1) (m (ref_info_at refed)) (ref_info_at refed) m (omega arith)
          (omega arith) c (inr (omega arith))

  log_link-seen :
      HasClient (m (ref_info_at refed))
      → max_seen max_thread (i + 1) (λ j. load32 (log_link s ref refed m) (era j (i + 1)))
        ≡ max_seen max_thread (i + 1) (λ j. load32 m (era j (i + 1)))
  unfolding log_link
  log_link-seen c = max_seen-cong max_thread (i + 1) _ _ λ j lt ne.
      write_redo-eras i link_ref _ (current_era s m) ref refed (i + 1) j
        (note_era (i + 1) (m (ref_info_at refed)) m) (omega arith) lt
      ∙ note_era-eras (i + 1) (m (ref_info_at refed)) j m (omega arith) (omega arith) c ne

  log_link-IsLogged :
      HasClient (m (ref_info_at refed))
      → OlderLogs size i few m (current_era s m)
      → IsLogged
          (tls_at i)
          link_ref
          (get_ref_cnt_from_info (m (ref_info_at refed)))
          (current_era s m)
          ref
          refed
          (log_link s ref refed m)
  unfolding log_link
  log_link-IsLogged c older =
      write_redo-IsLogged size i few link_ref (get_ref_cnt_from_info (m (ref_info_at refed)))
        (current_era s m) ref refed (m (ref_info_at refed)) m c older

  -- A thread that dies in `link_reference` before its compare-exchange has counted nothing, and
  -- `redo_ref_cnt` writes nothing, if neither the object nor another thread shows the current era,
  -- and the other logs of the thread are of earlier eras.
  pub link_reference-not_redone :
      segments_area_start ≤ refed
      → HasClient (m (ref_info_at refed))
      → OlderLogs size i few m (current_era s m)
      → (get_lcid_from_info (m (ref_info_at refed)) ≢ i + 1)
        ⊎ (get_lenum_from_info (m (ref_info_at refed)) ≢ current_era s m)
      → max_seen max_thread (i + 1) (λ j. load32 m (era j (i + 1))) < current_era s m
      → redo_ref_cnt (dead_thread size (tls_at i)) (log_link s ref refed m) ≡ log_link s ref refed m
  link_reference-not_redone high c older own unseen = rw (dead_thread_lem size i) (
      redo-link (tls_at i) link_ref (get_ref_cnt_from_info (m (ref_info_at refed)))
        (current_era s m) ref refed (log_link s ref refed m) (log_link-IsLogged c older)
        (omega arith) (ref_cnt-lt size i few (m (ref_info_at refed))) (current_era-lt size i few m)
        size (i + 1) refl
      ∙ write_if-false _ ref refed (log_link s ref refed m) (
          not_counted (i + 1) _ _ (current_era s m) _ (rw (log_link-word high c) own)
            (rw (log_link-seen c) unseen)))
