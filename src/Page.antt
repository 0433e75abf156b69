-- ===== src/Page.antt =====
-- src/page.cpp: the slow path of an allocation, free lists, fresh pages, pages given back.
-- A loop over a list takes fuel; `out_of_fuel` is a list that is longer, or a cycle.
pub mod Blocks
pub mod Init
mod Tests
pub mod Fresh
pub mod Generic
pub mod Refill
pub mod Collect
pub mod Return
pub mod Search
pub mod Free
pub mod RoundTrip
use sosp_paper19_ae.Base.{ℕ, zero, suc, ◌+◌, ◌-◌, ◌*◌, ◌/◌, ◌^◌, Bool, ◌||◌, ◌==◌, if◌then◌else◌}
use sosp_paper19_ae.Memory.{
  ◌>>=◌, ◌>>◌, Mem, store, memset, u32, with_byte0, ok, out_of_fuel, Cmd, pure, ◌>>=◌, ◌>>◌, gets,
  modify, peek, deref, divide_by,
}
use sosp_paper19_ae.Layout.{
  page_size, redo_cacheline_cnt, cxlobj_size, cxl_page_size, local_free_at, next_at, prev_at,
  is_msg_at, sas_thread_free_at, queue_block_size_at, redo_at, pages_at, free_page_at,
  cxl_ptr_segment, cxl_ptr_page, cxl_page_start, cxl_page_block_at, sas_of_segment,
}
use sosp_paper19_ae.Handle.{
  Shm, segment_used, set_segment_used, set_page_used, set_page_block_size, dec_page_used,
}
use sosp_paper19_ae.PageQueue.{cxl_page_queue_push, cxl_page_queue_remove}
use sosp_paper19_ae.Segment.{cxl_segment_page_alloc, cxl_segment_free}

-- One round of the loop of `cxl_thread_free_collect`: a block freed by another thread goes to the
-- `local_free` list of its page.
unfoldable pub return_block : ℕ → Mem → Mem
return_block block m =
    let page = cxl_ptr_page block in
    let m1 = store m block (m (local_free_at page)) in
    let m2 = store m1 (local_free_at page) block in dec_page_used page m2

unfoldable pub return_blocks : ℕ → ℕ → Cmd (Unit {0})
return_blocks zero block m = out_of_fuel
return_blocks (suc fuel) block m =
    let rest = return_blocks fuel (m block) (return_block block m) in
    if block == 0 then ok tt m else rest

-- The list of the whole segment is taken with one exchange, if it is not empty.
unfoldable pub cxl_thread_free_collect : ℕ → ℕ → Cmd (Unit {0})
cxl_thread_free_collect fuel page m =
    let sas = sas_of_segment (cxl_ptr_segment page) in
    let head = m (sas_thread_free_at sas) in
    let taken = return_blocks fuel head (store m (sas_thread_free_at sas) 0) in
    if head == 0 then ok tt m else taken

-- The end of `cxl_page_free_collect`.
unfoldable pub take_local_free : ℕ → Mem → Mem
take_local_free page m =
    if m (local_free_at page) == 0
    then m
    else if m page == 0
    then store (store m page (m (local_free_at page))) (local_free_at page) 0
    else m

unfoldable pub cxl_page_free_collect : ℕ → ℕ → Cmd (Unit {0})
cxl_page_free_collect fuel page = do
  cxl_thread_free_collect fuel page
  modify (take_local_free page)

-- The loop of `cxl_page_init`: `n` blocks from `block` on, each linked to the one behind it.
unfoldable pub link_blocks : ℕ → ℕ → ℕ → ℕ → Mem → Mem
link_blocks zero header block_size block m = m
link_blocks (suc n) header block_size block m =
    link_blocks n header block_size (block + block_size)
      (store (memset m block header) block (block + block_size))

-- `sizeof(block_size)` for a special page, `sizeof(CXLObj)` else.
abbrev pub header_size : Bool → ℕ
header_size special = if special then 8 else cxlobj_size

-- The fields that `cxl_page_init` sets first; `free` is not among them.
unfoldable pub reset_page : ℕ → ℕ → Mem → Mem
reset_page page block_size m =
    let m1 = store m (local_free_at page) 0 in
    let m2 = set_page_used page 0 (set_page_block_size page block_size m1) in
    let m3 = store (store m2 (next_at page) 0) (prev_at page) 0 in
    store m3 (is_msg_at page) (with_byte0 (m3 (is_msg_at page)) 0)

-- A page of `PAGE_SIZE / block_size` blocks, for a block size between 1 and `PAGE_SIZE`. The last
-- block is linked to the old `free`.
unfoldable pub init_page : Bool → ℕ → ℕ → Mem → Mem
init_page special page block_size m =
    let m1 = reset_page page block_size m in
    let area = cxl_page_start (cxl_ptr_segment page) page in
    let rounds = page_size / block_size - 1 in
    let first = cxl_page_block_at area block_size 0 in
    let m2 = link_blocks rounds (header_size special) block_size first m1 in
    let m3 = store m2 (cxl_page_block_at area block_size rounds) (m2 page) in store m3 page first

-- A NULL page faults at its first use, a block size of 0 in `PAGE_SIZE / block_size`.
unfoldable pub cxl_page_init : Bool → ℕ → ℕ → Cmd (Unit {0})
cxl_page_init special page block_size = do
  deref page
  divide_by block_size
  modify (init_page special page block_size)

-- `pq == &tls->pages[0] || pq == &tls->pages[1]`
abbrev pub is_special : Shm → ℕ → Bool
is_special s pq = (pq == pages_at s.tls_offset 0) || (pq == pages_at s.tls_offset 1)

unfoldable pub set_is_msg : ℕ → Mem → Mem
set_is_msg page m = store m (is_msg_at page) (with_byte0 (m (is_msg_at page)) 1)

unfoldable pub cxl_page_fresh : Shm → ℕ → Cmd ℕ
cxl_page_fresh s pq = do
  size ← peek (queue_block_size_at pq)
  page ← cxl_segment_page_alloc 2 s
  cxl_page_init (is_special s pq) page size
  modify (if pq == pages_at s.tls_offset 1 then set_is_msg page else λ m. m)
  modify (cxl_page_queue_push pq page)
  pure page

-- The loop of `cxl_page_queue_find_free_ex`: the first page with a free block, or NULL.
unfoldable pub find_free : ℕ → ℕ → ℕ → Cmd ℕ
find_free fuel zero page = λ _. out_of_fuel
find_free fuel (suc rounds) page = λ m.
    let search_on = find_free fuel rounds (m (next_at page)) in
    let visit = (do
      cxl_page_free_collect fuel page
      free ← peek page
      if free == 0 then search_on else pure page) in
    if page == 0 then ok 0 m else visit m

unfoldable pub cxl_page_queue_find_free_ex : ℕ → Shm → ℕ → Cmd ℕ
cxl_page_queue_find_free_ex fuel s pq = do
  first ← peek pq
  page ← find_free fuel fuel first
  if page == 0 then cxl_page_fresh s pq else pure page

-- The page of the block, and the first block of its free list; NULL for none.
unfoldable pub cxl_malloc_generic : ℕ → Shm → ℕ → Cmd (ℕ × ℕ)
cxl_malloc_generic fuel s pq = do
  modify (λ m. memset m (redo_at s.tls_offset 0) (64 * redo_cacheline_cnt))
  page ← cxl_page_queue_find_free_ex fuel s pq
  if page == 0 then pure (0, 0) else (do free ← peek page; pure (page, free))

unfoldable pub cxl_page_free : Shm → ℕ → ℕ → Cmd (Unit {0})
cxl_page_free s page pq = do
  modify (cxl_page_queue_remove pq page)
  modify (λ m. memset m page cxl_page_size)
  modify (cxl_page_queue_push (free_page_at s.tls_offset) page)
  let segment = cxl_ptr_segment page
  modify (λ m. set_segment_used segment (u32 (segment_used m segment + 2 ^ 32 - 1)) m)
  used ← gets (λ m. segment_used m segment)
  if used == 0 then cxl_segment_free s segment else pure tt
