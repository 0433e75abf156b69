-- ===== src/Alloc/Tests.antt =====
-- A page of root references with two free blocks.
use sosp_paper19_ae.Alloc.RoundTrip.{cxl_free-collect}
use sosp_paper19_ae.Alloc.Free.{IsOutside}
use sosp_paper19_ae.Page.Return.{returned, returned_cnt}
use sosp_paper19_ae.Page.Blocks.{Links}
use sosp_paper19_ae.Page.{cxl_thread_free_collect}
use sosp_paper19_ae.Handle.{segment_thread_id, page_used, page_block_size}
use sosp_paper19_ae.Base.{
  ℕ, ◌+◌, ◌≡◌, refl, [], ◌∷◌, inr, arith, ◌==◌, if◌then◌else◌, ◌^◌, ◌%◌, ◌≢◌, true, ◌*◌, suc,
}
use sosp_paper19_ae.Memory.{Mem, ok, and_then}
use sosp_paper19_ae.Layout.{
  page_size, pages_at, tls_at, sas_thread_free_at, sas_at, sas_state_at, sas_of_segment,
  cxl_ptr_segment, cxl_ptr_page, counts_at, local_free_at, root_ref_size, potential_leaking,
}
use sosp_paper19_ae.Layout.Pointers.{segment_at, page_at}
use sosp_paper19_ae.Thread.{handle_of}
use sosp_paper19_ae.Alloc.{thread_base_ref_alloc, cxl_free, cleared_size}
use sosp_paper19_ae.Alloc.Root.{IsRoot, thread_base_ref_alloc-hit}

abbrev page : ℕ
page = page_at 0 1

abbrev block_a : ℕ
block_a = segment_at 0 + page_size

abbrev block_b : ℕ
block_b = segment_at 0 + page_size + 16

abbrev region : Mem
region = λ a.
    if a == pages_at (tls_at 0) 0
    then page
    else if a == page
    then block_a
    else if a == block_a
    then block_b
    else 0

thread_base_ref_alloc-hit_example :
    (m' : Mem) × (thread_base_ref_alloc 0 (handle_of 0 0) region ≡ ok block_a m')
    × IsRoot region m' page block_a (block_b ∷ [])
thread_base_ref_alloc-hit_example =
    thread_base_ref_alloc-hit 0 0 region page block_a 0 (block_b ∷ []) refl (omega arith)
      (omega arith) (inr (omega arith)) (refl, (refl, refl))
      ((omega arith, omega arith, omega arith, omega arith), tt)

-- Block `block_a` of segment 0, which belongs to thread 1, is freed by thread 2 while `block_b` is in
-- the list of the segment.
abbrev collecting : Mem
collecting = λ a.
    if a == sas_thread_free_at (sas_at 0)
    then block_b
    else if a == segment_at 0
    then 1
    else if a == counts_at page
    then 2 * 2 ^ 32 + root_ref_size
    else 0

collecting-owner : segment_thread_id collecting (cxl_ptr_segment block_a) ≢ 2
unfolding segment_thread_id cxl_ptr_segment
collecting-owner = omega arith

collecting-state :
    collecting (sas_state_at (sas_of_segment (cxl_ptr_segment block_a))) ≢ potential_leaking
unfolding sas_of_segment cxl_ptr_segment
collecting-state = omega arith

collecting-list :
    Links collecting
      (collecting (sas_thread_free_at (sas_of_segment (cxl_ptr_segment block_a))))
      (block_b ∷ [])
      0
unfolding sas_of_segment cxl_ptr_segment
collecting-list = (refl, refl)

collecting-local : Links collecting (collecting (local_free_at (cxl_ptr_page block_a))) [] 0
unfolding cxl_ptr_page
collecting-local = refl

collecting-size : page_block_size collecting (cxl_ptr_page block_a) ≡ root_ref_size
unfolding page_block_size cxl_ptr_page
collecting-size = refl

block_b-IsOutside :
    IsOutside (handle_of 0 1) true block_a (omega arith, omega arith) collecting block_b
unfolding cleared_size
block_b-IsOutside = rw collecting-size (inr (omega arith))

cxl_free-collect_example :
    (m' : Mem) × (and_then
        (cxl_free (handle_of 0 1) true block_a collecting)
        (λ _. cxl_thread_free_collect 3 (cxl_ptr_page block_a))
      ≡ ok tt m')
    × Links m'
        (m' (local_free_at (cxl_ptr_page block_a)))
        (returned (cxl_ptr_page block_a) (block_b ∷ []) (block_a ∷ []))
        0
    × ((page_used m' (cxl_ptr_page block_a)
            + suc (returned_cnt (cxl_ptr_page block_a) (block_b ∷ [])))
          % 2 ^ 32
        ≡ page_used collecting (cxl_ptr_page block_a))
cxl_free-collect_example =
    cxl_free-collect (handle_of 0 1) true block_a (omega arith, omega arith) collecting
      (block_b ∷ []) [] (omega arith) 3 collecting-owner collecting-state collecting-list
      collecting-local ((omega arith, (omega arith, omega arith), block_b-IsOutside), tt) tt
      (tt, tt) (tt, tt) (omega arith)
