-- ===== src/Page/Tests.antt =====
-- A page of the second segment, for blocks of 48 bytes.
use sosp_paper19_ae.Page.RoundTrip.{cxl_malloc_generic-free}
use sosp_paper19_ae.Page.Free.{cxl_page_free-Holds}
use sosp_paper19_ae.Page.Search.{IsQuiet, Outcome, cxl_page_queue_find_free_ex_lem}
use sosp_paper19_ae.Page.Collect.{cxl_thread_free_collect_returns}
use sosp_paper19_ae.Page.Return.{IsBlock, returned, returned_cnt}
use sosp_paper19_ae.Page.Refill.{cxl_malloc_generic-refill}
use sosp_paper19_ae.Page.Generic.{unlogged}
use sosp_paper19_ae.Page.Fresh.{Made}
use sosp_paper19_ae.Segment.FreeQueue.{page_range, page_at-IsPage}
use sosp_paper19_ae.Segment.Claim.{Fits}
use sosp_paper19_ae.PageQueue.Chain.{Holds, IsPage}
use sosp_paper19_ae.Thread.{handle_of}
use sosp_paper19_ae.Base.{
  ℕ, ◌+◌, ◌*◌, ◌/◌, ◌≤◌, ◌≡◌, arith, false, List, [], ◌∷◌, ◌++◌, ◌⊎◌, ◌≢◌, refl, ◌^◌, ◌%◌, ◌<◌, All,
  ◌∉◌, ◌==◌, if◌then◌else◌,
}
use sosp_paper19_ae.Memory.{Mem, store, ok, fault}
use sosp_paper19_ae.Layout.{
  page_size, local_free_at, segments_area_start, segment_size, queue_block_size_at, pages_at,
  tls_at, free_page_at, max_segment_num, sas_at, sas_thread_free_at, sas_of_segment,
  cxl_ptr_segment, last_at, next_at, prev_at, pages_per_segment,
}
use sosp_paper19_ae.Layout.Pointers.{segment_at, page_at}
use sosp_paper19_ae.Handle.{page_used, page_block_size, sas_thread_id, segment_used}
use sosp_paper19_ae.Page.{init_page, cxl_malloc_generic, cxl_thread_free_collect, cxl_page_free}
use sosp_paper19_ae.Page.Blocks.{Links, blocks}
use sosp_paper19_ae.Page.Init.{init_page-Links}

abbrev page : ℕ
page = page_at 1 3

abbrev region : Mem
region = λ _. 0

init_page-Links_example :
    Links
      (init_page false page 48 region)
      (init_page false page 48 region page)
      (blocks (page_size / 48) 48 (segment_at 1 + 3 * page_size))
      0
    × (page_size / 48 * 48 ≤ page_size)
    × (init_page false page 48 region (local_free_at page) ≡ 0)
    × (page_used (init_page false page 48 region) page ≡ 0)
    × (page_block_size (init_page false page 48 region) page ≡ 48)
init_page-Links_example =
    init_page-Links 1 3 false 48 (omega arith) (omega arith) (omega arith) (omega arith)
      (omega arith) region

-- A thread whose bin 5 is for blocks of 64 bytes, in a region with room for two segments.
abbrev size : ℕ
size = segments_area_start + 2 * segment_size

abbrev one_bin : Mem
one_bin = store (λ _. 0) (queue_block_size_at (pages_at (tls_at 0) 5)) 64

one_bin-facts :
    (one_bin (pages_at (tls_at 0) 5) ≡ 0)
    × Holds one_bin (free_page_at (tls_at 0)) []
    × (one_bin (queue_block_size_at (pages_at (tls_at 0) 5)) ≡ 64)
    × ((k : ℕ)
        → k < max_segment_num
        → sas_thread_id one_bin (sas_at k) ≡ 0
        → one_bin (page_at k 1) ≡ 0)
unfolding store
one_bin-facts = (refl, (refl, refl), refl, λ k lt e. ground arith)

cxl_malloc_generic-refill_example :
    ((cxl_malloc_generic 1 (handle_of size 0) (pages_at (tls_at 0) 5) one_bin ≡ fault)
      × ((j : ℕ) → Fits (handle_of size 0) j → sas_thread_id one_bin (sas_at j) ≢ 0))
    ⊎ ((k : ℕ) × Fits (handle_of size 0) k
        × (sas_thread_id one_bin (sas_at k) ≡ 0)
        × ((j : ℕ) → j < k → sas_thread_id one_bin (sas_at j) ≢ 0)
        × ((m' : Mem) × (cxl_malloc_generic 1 (handle_of size 0) (pages_at (tls_at 0) 5) one_bin
              ≡ ok (page_at k 1, segment_at k + page_size) m')
            × (sas_thread_id m' (sas_at k) ≡ 1)
            × (segment_used m' (segment_at k) ≡ 1)
            × Made
                (unlogged size 0 5 (omega arith) (omega arith) one_bin)
                m'
                (free_page_at (tls_at 0))
                (pages_at (tls_at 0) 5)
                (page_at k 1)
                (segment_at k + page_size)
                64
                (page_range 1022 k 2 ++ [])))
cxl_malloc_generic-refill_example =
    cxl_malloc_generic-refill size 0 5 (omega arith) (omega arith) (omega arith) one_bin 0 64
      one_bin-facts.0 one_bin-facts.1 one_bin-facts.2 (omega arith) (omega arith) (omega arith)
      one_bin-facts.3

-- Two blocks of page 3 of segment 0 that another thread has freed.
abbrev block_a : ℕ
block_a = segment_at 0 + 3 * page_size

abbrev block_b : ℕ
block_b = segment_at 0 + 3 * page_size + 64

abbrev freed : Mem
freed = store (store (λ _. 0) (sas_thread_free_at (sas_at 0)) block_a) block_a block_b

freed-Links :
    Links freed
      (freed (sas_thread_free_at (sas_of_segment (cxl_ptr_segment (page_at 0 3)))))
      (block_a ∷ block_b ∷ [])
      0
unfolding store sas_of_segment cxl_ptr_segment
freed-Links = (refl, (refl, refl))

cxl_thread_free_collect_returns_example :
    (m' : Mem) × (cxl_thread_free_collect 3 (page_at 0 3) freed ≡ ok tt m')
    × (m' (sas_thread_free_at (sas_of_segment (cxl_ptr_segment (page_at 0 3)))) ≡ 0)
    × ((p : ℕ) (ls : List ℕ)
        → IsPage p
        → All IsBlock ls
        → All (λ x. x ∉ ls) (block_a ∷ block_b ∷ [])
        → Links freed (freed (local_free_at p)) ls 0
        → Links m' (m' (local_free_at p)) (returned p (block_a ∷ block_b ∷ []) ls) 0
          × ((page_used m' p + returned_cnt p (block_a ∷ block_b ∷ [])) % 2 ^ 32
              ≡ page_used freed p))
cxl_thread_free_collect_returns_example =
    cxl_thread_free_collect_returns (page_at 0 3) freed 3 (block_a ∷ block_b ∷ []) (omega arith)
      (omega arith) ((omega arith, omega arith), ((omega arith, omega arith), tt))
      ((omega arith, tt), (tt, tt)) freed-Links

-- A bin with one page, whose `free` list is empty and whose `local_free` list is not.
abbrev reusable : Mem
reusable = λ a.
    if a == pages_at (tls_at 0) 5
    then page_at 0 3
    else if a == last_at (pages_at (tls_at 0) 5)
    then page_at 0 3
    else if a == local_free_at (page_at 0 3)
    then block_a
    else 0

reusable-Holds : Holds reusable (pages_at (tls_at 0) 5) (page_at 0 3 ∷ [])
reusable-Holds = (refl, page_at-IsPage 0 3 (omega arith), refl, tt, (refl, refl))

reusable-IsQuiet : IsQuiet reusable (page_at 0 3)
unfolding sas_of_segment cxl_ptr_segment
reusable-IsQuiet = refl

cxl_page_queue_find_free_ex_lem_example :
    Outcome reusable 2 (handle_of size 0) (pages_at (tls_at 0) 5) (page_at 0 3 ∷ [])
cxl_page_queue_find_free_ex_lem_example =
    cxl_page_queue_find_free_ex_lem reusable 2 (handle_of size 0) (pages_at (tls_at 0) 5)
      (page_at 0 3 ∷ []) reusable-Holds (omega arith) (reusable-IsQuiet, tt)

-- A bin with two pages of the first segment, which has two pages in use.
abbrev both_used : Mem
both_used = λ a.
    if a == pages_at (tls_at 0) 5
    then page_at 0 3
    else if a == last_at (pages_at (tls_at 0) 5)
    then page_at 0 4
    else if a == next_at (page_at 0 3)
    then page_at 0 4
    else if a == prev_at (page_at 0 4)
    then page_at 0 3
    else if a == segment_at 0
    then 2 * 2 ^ 32
    else 0

both_used-Holds : Holds both_used (pages_at (tls_at 0) 5) ([] ++ page_at 0 3 ∷ page_at 0 4 ∷ [])
both_used-Holds = (
  refl,
  page_at-IsPage 0 3 (omega arith),
  refl,
  (omega arith, tt),
  (refl, page_at-IsPage 0 4 (omega arith), refl, tt, (refl, refl)),
)

both_used-used : 1 < segment_used both_used (cxl_ptr_segment (page_at 0 3))
unfolding cxl_ptr_segment segment_used
both_used-used = omega arith

cxl_page_free-Holds_example :
    (m' : Mem) × (cxl_page_free (handle_of size 0) (page_at 0 3) (pages_at (tls_at 0) 5) both_used
      ≡ ok tt m')
    × Holds m' (pages_at (tls_at 0) 5) (page_at 0 4 ∷ [])
    × Holds m' (free_page_at (tls_at 0)) (page_at 0 3 ∷ [])
    × (segment_used m' (cxl_ptr_segment (page_at 0 3)) + 1
        ≡ segment_used both_used (cxl_ptr_segment (page_at 0 3)))
    × (m' (page_at 0 3) ≡ 0)
cxl_page_free-Holds_example =
    cxl_page_free-Holds size 0 5 (page_at 0 3) [] (page_at 0 4 ∷ []) [] (omega arith) (omega arith)
      both_used both_used-Holds (refl, refl) tt both_used-used

cxl_malloc_generic-free_example :
    ((cxl_malloc_generic 1 (handle_of size 0) (pages_at (tls_at 0) 5) one_bin ≡ fault)
      × ((j : ℕ) → Fits (handle_of size 0) j → sas_thread_id one_bin (sas_at j) ≢ 0))
    ⊎ ((k : ℕ) × Fits (handle_of size 0) k
        × (sas_thread_id one_bin (sas_at k) ≡ 0)
        × ((m1 m2 : Mem) × (cxl_malloc_generic 1 (handle_of size 0) (pages_at (tls_at 0) 5) one_bin
              ≡ ok (page_at k 1, segment_at k + page_size) m1)
            × (sas_thread_id m1 (sas_at k) ≡ 1)
            × (cxl_page_free (handle_of size 0) (page_at k 1) (pages_at (tls_at 0) 5) m1 ≡ ok tt m2)
            × Holds m2 (free_page_at (tls_at 0)) []
            × Holds m2 (pages_at (tls_at 0) 5) []
            × (sas_thread_id m2 (sas_at k) ≡ 0)
            × ((j : ℕ) → j < pages_per_segment → m2 (page_at k j) ≡ 0)))
cxl_malloc_generic-free_example =
    cxl_malloc_generic-free size 0 5 (omega arith) (omega arith) (omega arith) one_bin 0 64
      one_bin-facts.0 one_bin-facts.1 one_bin-facts.2 (omega arith) (omega arith) (omega arith)
      one_bin-facts.3
