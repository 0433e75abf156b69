-- ===== src/RefCount/Frame.antt =====
-- Where the updates of references write, and where they do not.
use sosp_paper19_ae.Base.{ℕ, ◌+◌, ◌*◌, ◌^◌, ◌≤◌, ◌<◌, ◌≡◌, ◌⊎◌, inl, inr, arith}
use sosp_paper19_ae.Memory.{Mem, store, load32, store32}
use sosp_paper19_ae.Layout.{
  era_array_start, thread_local_vec_start, max_thread, get_lenum_from_info, get_lcid_from_info, era,
}
use sosp_paper19_ae.RefCount.{note_era, redo_slot, write_redo}

-- The client id of a word of `ref_info` is that of a thread.
abbrev pub HasClient : ℕ → Type 0
HasClient info = (1 ≤ get_lcid_from_info info) × (get_lcid_from_info info ≤ max_thread)

-- `note_era` writes in the array of eras alone.
pub note_era-other :
    (id info a : ℕ) (m : Mem)
    → 1 ≤ id
    → id ≤ max_thread
    → HasClient info
    → (a < era_array_start) ⊎ (thread_local_vec_start ≤ a)
    → note_era id info m a ≡ m a
unfolding note_era store32 load32 era store get_lcid_from_info get_lenum_from_info
note_era-other id info a m lo hi c (inl out) = ground arith
note_era-other id info a m lo hi c (inr out) = ground arith

pub write_redo-slot :
    (tls func cnt e ref refed : ℕ) (m : Mem)
    → (write_redo tls func cnt e ref refed m (redo_slot tls e) ≡ func + cnt * 2 ^ 16 + e * 2 ^ 32)
      × (write_redo tls func cnt e ref refed m (redo_slot tls e + 8) ≡ ref)
      × (write_redo tls func cnt e ref refed m (redo_slot tls e + 16) ≡ refed)
unfolding write_redo store
write_redo-slot tls func cnt e ref refed m = ground arith

pub write_redo-other :
    (tls func cnt e ref refed a : ℕ) (m : Mem)
    → (a < redo_slot tls e) ⊎ (redo_slot tls e + 32 ≤ a)
    → write_redo tls func cnt e ref refed m a ≡ m a
unfolding write_redo store
write_redo-other tls func cnt e ref refed a m (inl out) = ground arith
write_redo-other tls func cnt e ref refed a m (inr out) = ground arith
