-- ===== src/Ref.antt =====
-- src/cxl_ref.cpp: the handles that a program holds. Each one counts in its root reference.
pub mod Count
mod Tests
pub mod Last
use sosp_paper19_ae.Base.{ℕ, ◌+◌, ◌-◌, ◌^◌, true, ◌&&◌, Option, none, some, ◌==◌, if◌then◌else◌}
use sosp_paper19_ae.Memory.{
  Mem, store, bits16, with_bits16, with_byte0, Cmd, pure, ◌>>=◌, ◌>>◌, gets, modify, ok,
}
use sosp_paper19_ae.Layout.{root_flags_at}
use sosp_paper19_ae.Handle.{Shm}
use sosp_paper19_ae.Alloc.{CxlRef, inc_root_ref_cnt, cxl_free}
use sosp_paper19_ae.RefCount.{test_free}

abbrev pub null_ref : CxlRef
null_ref = record { tbr = 0; value = 0 }

-- `CXLRef_s(const CXLRef_s&)`
unfoldable pub copy_ref : CxlRef → Mem → Mem
copy_ref r m = if r.tbr == 0 then m else inc_root_ref_cnt r.tbr m

-- `operator=(const CXLRef_s&)`: what `this` becomes. What it was is overwritten.
unfoldable pub assign_ref : CxlRef → CxlRef → Cmd CxlRef
assign_ref this r m =
    let assigned : CxlRef = record { tbr = r.tbr; value = r.value } in
    if assigned.tbr == 0 then ok assigned m else ok assigned (inc_root_ref_cnt assigned.tbr m)

-- `CXLRef_s(const CXLRef_s&&)`: the new handle, and the one that is moved from, which is `const`.
unfoldable pub move_ref : CxlRef → CxlRef × CxlRef
move_ref r = (record { tbr = r.tbr; value = r.value }, r)

-- `operator=(const CXLRef_s&&)`: what `this` becomes, and the handle that is moved from.
unfoldable pub move_assign_ref : CxlRef → CxlRef → CxlRef × CxlRef
move_assign_ref this r = (record { tbr = r.tbr; value = r.value }, r)

-- `ref->ref_cnt --`
unfoldable pub dec_root_ref_cnt : ℕ → Mem → Mem
dec_root_ref_cnt tbr m =
    store m (root_flags_at tbr)
      (with_bits16 (m (root_flags_at tbr)) (bits16 (m (root_flags_at tbr)) + 2 ^ 16 - 1))

-- `ref->in_use = 0`
unfoldable pub clear_in_use : ℕ → Mem → Mem
clear_in_use tbr m = store m (root_flags_at tbr) (with_byte0 (m (root_flags_at tbr)) 0)

unfoldable pub root_ref_cnt : Mem → ℕ → ℕ
root_ref_cnt m tbr = bits16 (m (root_flags_at tbr))

-- `~CXLRef_s()`
unfoldable pub destroy_ref : ℕ → Shm → CxlRef → Cmd CxlRef
destroy_ref fuel s r = if (r.tbr == 0) && (r.value == 0) then pure r else (do
  modify (dec_root_ref_cnt r.tbr)
  cnt ← gets (λ m. root_ref_cnt m r.tbr)
  if cnt == 0
      then (do
        test_free fuel fuel s r.tbr
        modify (clear_in_use r.tbr)
        cxl_free s true r.tbr
        pure null_ref)
      else pure r)

-- `get_addr`, an offset or NULL.
unfoldable pub get_addr : CxlRef → Option ℕ
get_addr r = if r.value == 0 then none else some r.value

unfoldable pub get_tbr : CxlRef → Option ℕ
get_tbr r = if r.tbr == 0 then none else some r.tbr
