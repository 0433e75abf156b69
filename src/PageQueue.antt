-- ===== src/PageQueue.antt =====
-- src/page_queue.cpp: doubly linked queues of page descriptors. A queue is named by the offset of
-- its `cxl_page_queue_t`, a page by the offset of its descriptor.
pub mod Chain
pub mod Links
pub mod Push
pub mod Remove
pub mod Erase
mod Tests
pub mod Frame
pub mod Apart
use sosp_paper19_ae.Base.{ℕ, ◌==◌, if◌then◌else◌}
use sosp_paper19_ae.Memory.{Mem, store}
use sosp_paper19_ae.Layout.{next_at, prev_at, last_at}

unfoldable pub cxl_page_queue_push : ℕ → ℕ → Mem → Mem
cxl_page_queue_push queue page m =
    let m1 = store m (next_at page) (m queue) in
    let m2 = store m1 (prev_at page) 0 in
    let first = m2 queue in
    if first == 0
    then store (store m2 queue page) (last_at queue) page
    else store (store m2 (prev_at first) page) queue page

-- `if(prev_page != NULL) prev_page->next = page->next`
pub unlink_prev : ℕ → Mem → Mem
unlink_prev page m =
    if m (prev_at page) == 0 then m else store m (next_at (m (prev_at page))) (m (next_at page))

-- `if(next_page != NULL) next_page->prev = page->prev`
pub unlink_next : ℕ → ℕ → Mem → Mem
unlink_next next page m = if next == 0 then m else store m (prev_at next) (m (prev_at page))

pub unlink_last : ℕ → ℕ → Mem → Mem
unlink_last queue page m =
    if page == m (last_at queue) then store m (last_at queue) (m (prev_at page)) else m

pub unlink_first : ℕ → ℕ → Mem → Mem
unlink_first queue page m = if page == m queue then store m queue (m (next_at page)) else m

-- `page->next = 0; page->prev = 0`
pub clear_links : ℕ → Mem → Mem
clear_links page m = store (store m (next_at page) 0) (prev_at page) 0

-- `next_page` is read before the first write.
unfoldable pub cxl_page_queue_remove : ℕ → ℕ → Mem → Mem
unfolding unlink_prev unlink_next unlink_last unlink_first clear_links
cxl_page_queue_remove queue page m =
    let m1 = unlink_next (m (next_at page)) page (unlink_prev page m) in
    clear_links page (unlink_first queue page (unlink_last queue page m1))
