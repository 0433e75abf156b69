-- ===== src/Ref/Count.antt =====
-- The count of handles in a root reference.
use sosp_paper19_ae.Base.{
  ℕ_discrete, ℕ, ◌+◌, ◌-◌, ◌^◌, ◌<◌, ◌≡◌, refl, ◌≢◌, arith, eq→==, ne→==, Bool-cases, inl, inr, ap,
  ◌==◌,
}
use sosp_paper19_ae.Memory.{Mem, store, ok, and_then, bits16}
use sosp_paper19_ae.Handle.{Shm}
use sosp_paper19_ae.Layout.{root_flags_at}
use sosp_paper19_ae.Alloc.{CxlRef, inc_root_ref_cnt}
use sosp_paper19_ae.Ref.{
  copy_ref, move_ref, dec_root_ref_cnt, root_ref_cnt, destroy_ref, assign_ref,
}

pub dec_root_ref_cnt-cnt :
    (tbr : ℕ) (m : Mem)
    → 0 < root_ref_cnt m tbr
    → root_ref_cnt (dec_root_ref_cnt tbr m) tbr ≡ root_ref_cnt m tbr - 1
unfolding root_ref_cnt dec_root_ref_cnt store
dec_root_ref_cnt-cnt tbr m some_left =
    rw (eq→== (root_flags_at tbr) (root_flags_at tbr) refl) (omega arith)

-- A handle that is not the last only counts itself off.
destroy-others :
    (fuel : ℕ) (s : Shm) (r : CxlRef) (m : Mem)
    → r.tbr ≢ 0
    → 1 < root_ref_cnt m r.tbr
    → destroy_ref fuel s r m ≡ ok r (dec_root_ref_cnt r.tbr m)
unfolding destroy_ref
destroy-others fuel s r m ne more =
    rw
      (
        ne→== r.tbr 0 ne,
        dec_root_ref_cnt-cnt r.tbr m (omega (arith, more)),
        ne→== (root_ref_cnt m r.tbr - 1) 0 (omega (arith, more)),
      )
      refl

inc_root_ref_cnt-cnt :
    (tbr : ℕ) (m : Mem)
    → root_ref_cnt m tbr + 1 < 2 ^ 16
    → root_ref_cnt (inc_root_ref_cnt tbr m) tbr ≡ root_ref_cnt m tbr + 1
unfolding root_ref_cnt inc_root_ref_cnt store
inc_root_ref_cnt-cnt tbr m room =
    rw (eq→== (root_flags_at tbr) (root_flags_at tbr) refl) (omega arith)

copy_ref-inc : (r : CxlRef) (m : Mem) → r.tbr ≢ 0 → copy_ref r m ≡ inc_root_ref_cnt r.tbr m
unfolding copy_ref
copy_ref-inc r m ne = rw (ne→== r.tbr 0 ne) refl

dec-inc : (tbr : ℕ) (m : Mem) (a : ℕ) → dec_root_ref_cnt tbr (inc_root_ref_cnt tbr m) a ≡ m a
unfolding dec_root_ref_cnt inc_root_ref_cnt store
dec-inc tbr m a = elim (ℕ_discrete a (root_flags_at tbr)) [
  | yes e ↦ rw (e, eq→== (root_flags_at tbr) (root_flags_at tbr) refl) (omega arith)
  | no ne ↦ rw (ne→== a (root_flags_at tbr) ne) refl
]

-- A copy that is destroyed again leaves every word as it was, if a handle was counted and there was
-- room for another.
pub copy-destroy :
    (fuel : ℕ) (s : Shm) (r : CxlRef) (m : Mem)
    → r.tbr ≢ 0
    → 0 < root_ref_cnt m r.tbr
    → root_ref_cnt m r.tbr + 1 < 2 ^ 16
    → (m' : Mem) × (destroy_ref fuel s r (copy_ref r m) ≡ ok r m') × ((a : ℕ) → m' a ≡ m a)
copy-destroy fuel s r m ne held room = (
  dec_root_ref_cnt r.tbr (inc_root_ref_cnt r.tbr m),
  rw (copy_ref-inc r m ne) (
      destroy-others fuel s r (inc_root_ref_cnt r.tbr m) ne
        (omega (arith, held, inc_root_ref_cnt-cnt r.tbr m room))),
  dec-inc r.tbr m,
)

-- A move does not count, and leaves the handle that is moved from as it was. So when the new handle
-- and the one that is moved from are destroyed, the count falls by two, for one that was counted. It
-- must count at least three handles.
pub move-destroy_both :
    (fuel : ℕ) (s : Shm) (r : CxlRef) (m : Mem)
    → r.tbr ≢ 0
    → 2 < root_ref_cnt m r.tbr
    → (m' : Mem) × (and_then
          (destroy_ref fuel s (move_ref r).0 m)
          (λ _. destroy_ref fuel s (move_ref r).1)
        ≡ ok r m')
      × (root_ref_cnt m' r.tbr + 2 ≡ root_ref_cnt m r.tbr)
unfolding move_ref
move-destroy_both fuel s r m ne held =
    let once = dec_root_ref_cnt-cnt r.tbr m (omega (arith, held)) in
    (
      dec_root_ref_cnt r.tbr (dec_root_ref_cnt r.tbr m),
      rw
          (
            destroy-others fuel s r m ne (omega (arith, held)),
            destroy-others fuel s r (dec_root_ref_cnt r.tbr m) ne (omega (arith, once, held)),
          )
          refl,
      omega (
        arith,
        once,
        dec_root_ref_cnt-cnt r.tbr (dec_root_ref_cnt r.tbr m) (omega (arith, once, held)),
        held,
      ),
    )

assign_ref-copy : (this r : CxlRef) (m : Mem) → assign_ref this r m ≡ ok r (copy_ref r m)
unfolding assign_ref copy_ref
assign_ref-copy this r m = elim (Bool-cases (r.tbr == 0)) [ inl e ↦ rw e refl | inr e ↦ rw e refl ]

-- An assignment does not count off the handle that is overwritten: when the handle has been
-- assigned to and destroyed, every word is what it was before, so the root reference that it held
-- first still counts it. The root reference assigned must count a handle and have room for one.
pub assign-destroy :
    (fuel : ℕ) (s : Shm) (this r : CxlRef) (m : Mem)
    → r.tbr ≢ 0
    → 0 < root_ref_cnt m r.tbr
    → root_ref_cnt m r.tbr + 1 < 2 ^ 16
    → (m' : Mem) × (and_then (assign_ref this r m) (destroy_ref fuel s) ≡ ok r m')
      × ((a : ℕ) → m' a ≡ m a)
      × (root_ref_cnt m' this.tbr ≡ root_ref_cnt m this.tbr)
unfolding root_ref_cnt
assign-destroy fuel s this r m ne held room =
    let (m', run, same) = copy-destroy fuel s r m ne held room in
    (m', rw (assign_ref-copy this r m) run, same, ap bits16 (same (root_flags_at this.tbr)))
