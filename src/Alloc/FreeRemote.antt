-- ===== src/Alloc/FreeRemote.antt =====
-- `cxl_free` of src/alloc.cpp for a block of another thread's segment.
use sosp_paper19_ae.Base.{
  ℕ, ◌+◌, ◌*◌, ◌<◌, ◌≡◌, ◌≢◌, refl, ap, ◌∙◌, ◌⊎◌, inl, inr, List, ◌∷◌, arith, All, ne→==, eq→==,
  Bool, ℕ_discrete,
}
use sosp_paper19_ae.Memory.{Mem, store, ok, store_self}
use sosp_paper19_ae.Layout.{
  segment_size, segments_area_start, cxl_ptr_segment, sas_thread_free_at, sas_state_at,
  sas_of_segment, potential_leaking, max_segment_num,
}
use sosp_paper19_ae.Handle.{Shm, segment_thread_id}
use sosp_paper19_ae.Page.Blocks.{Links, Links-same}
use sosp_paper19_ae.Page.Return.{IsBlock}
use sosp_paper19_ae.Alloc.{free_remote, cxl_free}
use sosp_paper19_ae.Alloc.Free.{cleared, cleared-other, cleared-owner, cleared-Links, IsOutside}

module _ (s : Shm) (special : Bool) (b : ℕ) (is : IsBlock b) (m : Mem) where
  abbrev freed : Mem
  freed = cleared s special b is m

  -- The allocation state of the segment.
  abbrev sas : ℕ
  sas = sas_of_segment (cxl_ptr_segment b)

  module _ (inside : b < segments_area_start + max_segment_num * segment_size) where
    sas-lt : sas_thread_free_at sas < segments_area_start
    unfolding sas_of_segment cxl_ptr_segment
    sas-lt = omega arith

    remote-run :
        segment_thread_id m (cxl_ptr_segment b) ≢ s.thread_id
        → cxl_free s special b m ≡ ok tt (free_remote b sas freed)
    unfolding cxl_free
    remote-run other =
        rw
          (
            cleared-owner s special b is m,
            ne→== (segment_thread_id m (cxl_ptr_segment b)) s.thread_id other,
          )
          refl

    sas-outside : (d : ℕ) → (d ≡ 16) ⊎ (d ≡ 24) → freed (sas + d) ≡ m (sas + d)
    sas-outside d (inl e) =
        cleared-other s special b is m (sas + d) (inl (omega (arith, sas-lt, is.0)))
    sas-outside d (inr e) =
        cleared-other s special b is m (sas + d) (inl (omega (arith, sas-lt, is.0)))

    abbrev pushed : Mem
    pushed = store (store freed b (m (sas_thread_free_at sas))) (sas_thread_free_at sas) b

    remote-pushed : m (sas_state_at sas) ≢ potential_leaking → free_remote b sas freed ≡ pushed
    unfolding free_remote
    remote-pushed usable =
        rw
          (
            sas-outside 16 (inl (omega arith)),
            sas-outside 24 (inr (omega arith)),
            ne→== (m (sas_state_at sas)) potential_leaking usable,
          )
          refl

    remote-kept : m (sas_state_at sas) ≡ potential_leaking → free_remote b sas freed ≡ freed
    unfolding free_remote
    remote-kept e = rw (sas-outside 16 (inl (omega arith)), e) refl

    pushed-other : (a : ℕ) → a ≢ b → IsBlock a → pushed a ≡ freed a
    unfolding store
    pushed-other a ne is' =
        rw (ne→== a (sas_thread_free_at sas) (omega (arith, sas-lt, is'.0)), ne→== a b ne) refl

    pushed-block : pushed b ≡ m (sas_thread_free_at sas)
    unfolding store
    pushed-block =
        rw (ne→== b (sas_thread_free_at sas) (omega (arith, sas-lt, is.0)), eq→== b b refl) refl

    pushed-Links :
        (xs : List ℕ)
        → Links m (m (sas_thread_free_at sas)) xs 0
        → All (λ a. (a ≢ b) × IsBlock a) xs
        → All (IsOutside s special b is m) xs
        → Links pushed (pushed (sas_thread_free_at sas)) (b ∷ xs) 0
    pushed-Links xs h k out =
        let first =
          store_self (store freed b (m (sas_thread_free_at sas))) (sas_thread_free_at sas) b in
        (
          first,
          rw (ap pushed first ∙ pushed-block) (
              Links-same freed pushed (λ a. (a ≢ b) × IsBlock a) (m (sas_thread_free_at sas)) xs 0
                (λ a q. pushed-other a q.0 q.1) k
                (cleared-Links s special b is m (m (sas_thread_free_at sas)) xs out h)),
        )

    remote-other :
        (a : ℕ) → IsOutside s special b is m a → a ≢ b → a ≢ sas_thread_free_at sas → pushed a ≡ m a
    unfolding store
    remote-other a out ne ne' =
        rw (ne→== a (sas_thread_free_at sas) ne', ne→== a b ne)
          (cleared-other s special b is m a out)

    -- `cxl_free` of a block of another thread's segment puts the block in front of the list of the
    -- segment, unless the segment may be leaking: then the list stays as it is.
    pub cxl_free-remote :
        (xs : List ℕ)
        → segment_thread_id m (cxl_ptr_segment b) ≢ s.thread_id
        → Links m (m (sas_thread_free_at sas)) xs 0
        → All (λ a. (a ≢ b) × IsBlock a) xs
        → All (IsOutside s special b is m) xs
        → ((m (sas_state_at sas) ≢ potential_leaking)
            × ((m' : Mem) × (cxl_free s special b m ≡ ok tt m')
                × Links m' (m' (sas_thread_free_at sas)) (b ∷ xs) 0
                × ((a : ℕ)
                    → IsOutside s special b is m a
                    → a ≢ b
                    → a ≢ sas_thread_free_at sas
                    → m' a ≡ m a)))
          ⊎ ((m (sas_state_at sas) ≡ potential_leaking)
              × ((m' : Mem) × (cxl_free s special b m ≡ ok tt m')
                  × Links m' (m' (sas_thread_free_at sas)) xs 0))
    cxl_free-remote xs other h k out = elim (ℕ_discrete (m (sas_state_at sas)) potential_leaking) [
      | no usable ↦ inl (
        usable,
        (
          pushed,
          remote-run other ∙ ap (λ n. ok tt n) (remote-pushed usable),
          pushed-Links xs h k out,
          remote-other,
        ),
      )
      | yes e ↦ inr (
        e,
        (
          freed,
          remote-run other ∙ ap (λ n. ok tt n) (remote-kept e),
          rw (sas-outside 24 (inr (omega arith)))
              (cleared-Links s special b is m (m (sas_thread_free_at sas)) xs out h),
        ),
      )
    ]
