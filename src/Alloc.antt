-- ===== src/Alloc.antt =====
-- src/alloc.cpp: blocks out of the free list of a page, blocks given back; and the functions of
-- src/cxl_shm.cpp that turn a block into an object, a root reference or a message queue.
pub mod Root
pub mod NewRoot
pub mod Object
pub mod NewObject
mod Tests
pub mod Free
pub mod FreeRemote
pub mod RoundTrip
use sosp_paper19_ae.Base.{ℕ, ◌+◌, ◌*◌, Bool, true, false, ◌==◌, if◌then◌else◌}
use sosp_paper19_ae.Memory.{
  Mem, store, memset, bits16, with_bits0, with_bits16, with_byte0, Cmd, pure, ◌>>=◌, ◌>>◌, gets,
  modify, peek, deref,
}
use sosp_paper19_ae.Layout.{
  message_buffer_size, cxlobj_size, ref_info_at, embedded_ref_cnt_at, root_ref_size, root_flags_at,
  local_free_at, sas_state_at, sas_thread_free_at, message_queue_size, end_at, ids_at,
  sender_next_at, receiver_next_at, buffer_at, potential_leaking, cxl_ptr_segment, cxl_ptr_page,
  sas_of_segment, pack_ref_info, cxl_page_queue,
}
use sosp_paper19_ae.Handle.{
  Shm, current_era, advance_era, segment_thread_id, page_used, page_block_size, inc_page_used,
  dec_page_used,
}
use sosp_paper19_ae.Page.{cxl_malloc_generic, cxl_page_free}

-- The first page of the queue, if it has a free block.
unfoldable pub cxl_find_page : ℕ → Mem → ℕ
cxl_find_page pq m = if m pq == 0 then 0 else if m (m pq) == 0 then 0 else m pq

-- The page that the block is of, and the block; NULL for none.
unfoldable pub cxl_page_malloc : ℕ → Shm → ℕ → ℕ → Cmd (ℕ × ℕ)
cxl_page_malloc fuel s pq page =
    if page == 0 then cxl_malloc_generic fuel s pq else (do free ← peek page; pure (page, free))

-- `page->used ++; page->free = b->next`
unfoldable pub pop_block : ℕ → ℕ → Mem → Mem
pop_block b page m = let m1 = inc_page_used page m in store m1 page (m1 b)

-- `in_use` is set and `ref_cnt` is 0.
unfoldable pub block_to_tbr : ℕ → ℕ → Mem → Mem
block_to_tbr b page m =
    let m1 = store (pop_block b page m) b 0 in
    let m2 = store m1 (root_flags_at b) (with_byte0 (m1 (root_flags_at b)) 1) in
    store m2 (root_flags_at b) (with_bits16 (m2 (root_flags_at b)) 0)

-- `tbr->ref_cnt += 1`
unfoldable pub inc_root_ref_cnt : ℕ → Mem → Mem
inc_root_ref_cnt tbr m =
    store m (root_flags_at tbr)
      (with_bits16 (m (root_flags_at tbr)) (bits16 (m (root_flags_at tbr)) + 1))

unfoldable pub link_block_to_tbr : ℕ → ℕ → Mem → Mem
link_block_to_tbr b tbr m = inc_root_ref_cnt tbr (store m tbr b)

-- The object counts one reference, in the current era of the thread, which then advances.
unfoldable pub block_to_cxlobj : Shm → ℕ → ℕ → ℕ → Mem → Mem
block_to_cxlobj s b page embedded_ref_cnt m =
    let m1 = pop_block b page m in
    let info = pack_ref_info s.thread_id 1 (current_era s m1) in
    store (store (advance_era s m1) (ref_info_at b) info) (embedded_ref_cnt_at b) embedded_ref_cnt

-- The page is found from the block. `receiver_id` is set to 0, not to the argument.
unfoldable pub block_to_msg_queue : ℕ → ℕ → Mem → Mem
block_to_msg_queue b sender_id m =
    let m1 = pop_block b (cxl_ptr_page b) m in
    let m2 = store m1 (ids_at b) (with_bits16 (with_bits0 (m1 (ids_at b)) sender_id) 0) in
    let m3 = store (store m2 b 0) (end_at b) 0 in
    let m4 = store (store m3 (sender_next_at b) 0) (receiver_next_at b) 0 in
    memset m4 (buffer_at b 0) (8 * message_buffer_size)

-- NULL if there is no block.
unfoldable pub thread_base_ref_alloc : ℕ → Shm → Cmd ℕ
thread_base_ref_alloc fuel s = do
  let pq = cxl_page_queue s.tls_offset true root_ref_size
  page ← gets (cxl_find_page pq)
  (page', block) ← cxl_page_malloc fuel s pq page
  if block == 0 then pure 0 else (do modify (block_to_tbr block page'); pure block)

-- A `CXLRef`: the offset of its root reference and that of its object's data.
pub record CxlRef : Type 0 where
  pub tbr : ℕ
  pub value : ℕ

-- Neither `ref` nor the block is tested for NULL.
unfoldable pub cxl_ref_alloc : ℕ → Shm → ℕ → ℕ → ℕ → Cmd CxlRef
cxl_ref_alloc fuel s ref block_size embedded_ref_cnt = do
  let pq = cxl_page_queue s.tls_offset false block_size
  page ← gets (cxl_find_page pq)
  (page', block) ← cxl_page_malloc fuel s pq page
  deref ref
  modify (link_block_to_tbr block ref)
  deref block
  modify (block_to_cxlobj s block page' embedded_ref_cnt)
  pure (record { tbr = ref; value = block + cxlobj_size })

-- How much of a block `cxl_free` clears.
unfoldable pub cleared_size : Bool → ℕ → ℕ
cleared_size special block_size =
    if special
    then (if block_size == 16 then root_ref_size else message_queue_size)
    else cxlobj_size

-- A block of a segment of the thread itself: to the `local_free` list of its page.
unfoldable pub free_local : ℕ → ℕ → Mem → Mem
free_local b page m =
    let m1 = store m b (m (local_free_at page)) in
    let m2 = store m1 (local_free_at page) b in dec_page_used page m2

-- A block of another thread's segment: to the list of the segment, unless it may be leaking.
unfoldable pub free_remote : ℕ → ℕ → Mem → Mem
free_remote b sas m =
    if m (sas_state_at sas) == potential_leaking
    then m
    else store (store m b (m (sas_thread_free_at sas))) (sas_thread_free_at sas) b

unfoldable pub cxl_free : Shm → Bool → ℕ → Cmd (Unit {0})
cxl_free s special b = do
  let page = cxl_ptr_page b
  let segment = cxl_ptr_segment b
  modify (λ m. memset m b (cleared_size special (page_block_size m page)))
  owner ← gets (λ m. segment_thread_id m segment)
  if owner == s.thread_id
      then (do
        modify (free_local b page)
        used ← gets (λ m. page_used m page)
        size ← gets (λ m. page_block_size m page)
        if used == 0
            then cxl_page_free s page (cxl_page_queue s.tls_offset special size)
            else pure tt)
      else modify (free_remote b (sas_of_segment segment))

unfoldable pub msg_queue_alloc : ℕ → Shm → ℕ → Cmd ℕ
msg_queue_alloc fuel s sender_id = do
  let pq = cxl_page_queue s.tls_offset true message_queue_size
  page ← gets (cxl_find_page pq)
  (page', block) ← cxl_page_malloc fuel s pq page
  if block == 0 then pure 0 else (do modify (block_to_msg_queue block sender_id); pure block)
