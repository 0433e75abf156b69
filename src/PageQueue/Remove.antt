-- ===== src/PageQueue/Remove.antt =====
-- A removal takes the page out of the list, wherever it stands.
use sosp_paper19_ae.Base.{ℕ, ◌≡◌, ◌≢◌, arith, ◌==◌, if◌then◌else◌}
use sosp_paper19_ae.Memory.{Mem}
use sosp_paper19_ae.Layout.{next_at, prev_at, last_at}
use sosp_paper19_ae.PageQueue.{
  cxl_page_queue_remove, unlink_prev, unlink_next, unlink_last, unlink_first,
}
use sosp_paper19_ae.PageQueue.Chain.{IsPage, IsQueueAt}
use sosp_paper19_ae.PageQueue.Links.{
  IsLink, unlink_prev-queue, unlink_prev-page, unlink_next-queue, unlink_next-page,
  unlink_last-queue, unlink_last-page, unlink_first-queue, unlink_first-page, clear_links-other,
}

-- What a removal of `page` does to the links of the other pages and to the queue, in terms of the
-- region before.
pub record Removed (m m' : Mem) (q page : ℕ) : Type 0 where
  pub first : m' q ≡ (if page == m q then m (next_at page) else m q)
  pub last : m' (last_at q) ≡ (if page == m (last_at q) then m (prev_at page) else m (last_at q))
  pub next :
      (x : ℕ)
      → IsPage x
      → x ≢ page
      → m' (next_at x) ≡ (if x == m (prev_at page) then m (next_at page) else m (next_at x))
  pub prev :
      (x : ℕ)
      → IsPage x
      → x ≢ page
      → m' (prev_at x) ≡ (if x == m (next_at page) then m (prev_at page) else m (prev_at x))

module _ (m : Mem) (q page : ℕ) (at : IsQueueAt q) (is : IsPage page)
    (before : IsLink (m (prev_at page))) (behind : IsLink (m (next_at page)))
    (ne : m (prev_at page) ≢ page) (ne' : m (next_at page) ≢ page) where
  m1 : Mem
  m1 = unlink_prev page m

  m2 : Mem
  m2 = unlink_next (m (next_at page)) page m1

  m3 : Mem
  m3 = unlink_last q page m2

  m4 : Mem
  m4 = unlink_first q page m3

  remove-queue :
      (cxl_page_queue_remove q page m q ≡ (if page == m q then m (next_at page) else m q))
      × (cxl_page_queue_remove q page m (last_at q)
          ≡ (if page == m (last_at q) then m (prev_at page) else m (last_at q)))
  unfolding cxl_page_queue_remove m1 m2 m3 m4
  remove-queue =
      let a = unlink_prev-queue m q page at is before in
      let b = unlink_prev-page m q page at is before page is in
      let c = unlink_next-queue m1 q page at is (m (next_at page)) behind in
      let d = unlink_next-page m1 q page at is (m (next_at page)) behind page is in
      let e = unlink_last-queue m2 q page at is in
      let f = unlink_last-page m2 q page at is page is in
      let g = unlink_first-queue m3 q page at is in
      let h = clear_links-other m4 q page at is in ground arith

  remove-page :
      (x : ℕ)
      → IsPage x
      → x ≢ page
      → (cxl_page_queue_remove q page m (next_at x)
          ≡ (if x == m (prev_at page) then m (next_at page) else m (next_at x)))
        × (cxl_page_queue_remove q page m (prev_at x)
            ≡ (if x == m (next_at page) then m (prev_at page) else m (prev_at x)))
  unfolding cxl_page_queue_remove m1 m2 m3 m4
  remove-page x isx nx =
      let a = unlink_prev-page m q page at is before x isx in
      let b = unlink_prev-page m q page at is before page is in
      let d = unlink_next-page m1 q page at is (m (next_at page)) behind x isx in
      let f = unlink_last-page m2 q page at is x isx in
      let g = unlink_first-page m3 q page at is x isx in
      let h = (clear_links-other m4 q page at is).2 x isx nx in ground arith

  pub cxl_page_queue_remove-Removed : Removed m (cxl_page_queue_remove q page m) q page
  cxl_page_queue_remove-Removed = record {
    first = remove-queue.0;
    last = remove-queue.1;
    next = λ x isx nx. (remove-page x isx nx).0;
    prev = λ x isx nx. (remove-page x isx nx).1;
  }
