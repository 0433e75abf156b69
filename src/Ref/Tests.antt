-- ===== src/Ref/Tests.antt =====
-- A root reference that counts some handles.
use sosp_paper19_ae.Ref.Last.{IsLast, destroy_ref-last}
use sosp_paper19_ae.Page.Blocks.{Links}
use sosp_paper19_ae.Handle.{segment_thread_id, page_used, page_block_size}
use sosp_paper19_ae.Layout.Pointers.{segment_at, page_at}
use sosp_paper19_ae.Base.{ℕ, ◌+◌, ◌*◌, ◌^◌, ◌≡◌, ◌==◌, if◌then◌else◌, refl, arith, [], ◌∷◌, inr}
use sosp_paper19_ae.Memory.{Mem, ok, and_then}
use sosp_paper19_ae.Layout.{
  segments_area_start, root_flags_at, ref_info_at, page_size, counts_at, local_free_at,
  root_ref_size, get_ref_cnt_from_info, get_lcid_from_info, cxl_ptr_page, cxl_ptr_segment,
}
use sosp_paper19_ae.Alloc.{CxlRef}
use sosp_paper19_ae.Thread.{handle_of}
use sosp_paper19_ae.Ref.{copy_ref, move_ref, root_ref_cnt, destroy_ref, assign_ref, null_ref}
use sosp_paper19_ae.Ref.Count.{copy-destroy, move-destroy_both, assign-destroy}

abbrev root : CxlRef
root = record { tbr = segments_area_start + 12288; value = segments_area_start + 8216 }

abbrev counting : ℕ → Mem
counting n = λ a. if a == root_flags_at root.tbr then n * 2 ^ 16 + 1 else 0

one_handle : root_ref_cnt (counting 1) root.tbr ≡ 1
unfolding root_ref_cnt
one_handle = refl

three_handles : root_ref_cnt (counting 3) root.tbr ≡ 3
unfolding root_ref_cnt
three_handles = refl

copy-destroy_example :
    (m' : Mem) × (destroy_ref 0 (handle_of 0 0) root (copy_ref root (counting 1)) ≡ ok root m')
    × ((a : ℕ) → m' a ≡ counting 1 a)
copy-destroy_example =
    copy-destroy 0 (handle_of 0 0) root (counting 1) (omega arith) (omega (arith, one_handle))
      (omega (arith, one_handle))

move-destroy_both_example :
    (m' : Mem) × (and_then
        (destroy_ref 0 (handle_of 0 0) (move_ref root).0 (counting 3))
        (λ _. destroy_ref 0 (handle_of 0 0) (move_ref root).1)
      ≡ ok root m')
    × (root_ref_cnt m' root.tbr + 2 ≡ root_ref_cnt (counting 3) root.tbr)
move-destroy_both_example =
    move-destroy_both 0 (handle_of 0 0) root (counting 3) (omega arith)
      (omega (arith, three_handles))

-- The handle that is overwritten is the only one of another root reference.
abbrev other : CxlRef
other = record { tbr = segments_area_start + 16384; value = segments_area_start + 8216 }

abbrev both : Mem
both = λ a. if a == root_flags_at other.tbr then 2 ^ 16 + 1 else counting 1 a

both_counted : root_ref_cnt both root.tbr ≡ 1
unfolding root_ref_cnt
both_counted = refl

assign-destroy_example :
    (m' : Mem) × (and_then (assign_ref other root both) (destroy_ref 0 (handle_of 0 0))
      ≡ ok root m')
    × ((a : ℕ) → m' a ≡ both a)
    × (root_ref_cnt m' other.tbr ≡ root_ref_cnt both other.tbr)
assign-destroy_example =
    assign-destroy 0 (handle_of 0 0) other root both (omega arith) (omega (arith, both_counted))
      (omega (arith, both_counted))

-- `last` is the only handle of a root reference on page 1 of segment 0, which belongs to thread 1. Its
-- object, on page 2, counts two references.
abbrev last_root : ℕ
last_root = segment_at 0 + page_size

abbrev object : ℕ
object = segment_at 0 + 2 * page_size

abbrev shared : Mem
shared = λ a.
    if a == last_root
    then object
    else if a == root_flags_at last_root
    then 2 ^ 16 + 1
    else if a == ref_info_at object
    then 2 ^ 48 + 2 * 2 ^ 32 + 1
    else if a == segment_at 0
    then 1
    else if a == counts_at (page_at 0 1)
    then 2 * 2 ^ 32 + root_ref_size
    else 0

shared-IsLast : IsLast shared 1 last_root object
unfolding root_ref_cnt get_ref_cnt_from_info get_lcid_from_info segment_thread_id cxl_ptr_segment
    cxl_ptr_page page_block_size page_used
shared-IsLast = record {
  block = (omega arith, omega arith);
  one_handle = refl;
  leads = refl;
  not_null = omega arith;
  object_block = (omega arith, omega arith);
  apart = inr (omega arith);
  counted = (omega arith, omega arith);
  shared = omega arith;
  own = refl;
  in_page = refl;
  others_used = omega arith;
}

shared-list : Links shared (shared (local_free_at (cxl_ptr_page last_root))) [] 0
unfolding cxl_ptr_page
shared-list = refl

destroy_ref-last_example :
    (m' : Mem) × (destroy_ref 1
        (handle_of 0 0)
        (record { tbr = last_root; value = object + 24 })
        shared
      ≡ ok null_ref m')
    × (get_ref_cnt_from_info (m' (ref_info_at object)) + 1
        ≡ get_ref_cnt_from_info (shared (ref_info_at object)))
    × Links m' (m' (local_free_at (cxl_ptr_page last_root))) (last_root ∷ []) 0
    × (page_used m' (cxl_ptr_page last_root) + 1 ≡ page_used shared (cxl_ptr_page last_root))
destroy_ref-last_example =
    destroy_ref-last 0 0 (omega arith) last_root object shared shared-IsLast 0 (object + 24) []
      shared-list tt
