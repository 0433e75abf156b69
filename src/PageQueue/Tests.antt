-- ===== src/PageQueue/Tests.antt =====
-- Two pages pushed onto an empty queue, and the first of them removed again.
use sosp_paper19_ae.Base.{ℕ, refl, [], ◌∷◌, arith}
use sosp_paper19_ae.Memory.{Mem}
use sosp_paper19_ae.Layout.{segments_area_start, meta_page_at, free_page_at, tls_at}
use sosp_paper19_ae.PageQueue.{cxl_page_queue_push, cxl_page_queue_remove}
use sosp_paper19_ae.PageQueue.Chain.{IsPage, Holds}
use sosp_paper19_ae.PageQueue.Push.{cxl_page_queue_push-Holds}
use sosp_paper19_ae.PageQueue.Erase.{cxl_page_queue_remove-Holds}

abbrev queue : ℕ
queue = free_page_at (tls_at 0)

abbrev page1 : ℕ
page1 = meta_page_at segments_area_start 1

abbrev page2 : ℕ
page2 = meta_page_at segments_area_start 2

page1-IsPage : IsPage page1
page1-IsPage = omega arith

page2-IsPage : IsPage page2
page2-IsPage = omega arith

abbrev empty : Mem
empty = λ _. 0

abbrev one : Mem
one = cxl_page_queue_push queue page1 empty

abbrev two : Mem
two = cxl_page_queue_push queue page2 one

one-Holds : Holds one queue (page1 ∷ [])
one-Holds =
    cxl_page_queue_push-Holds empty queue page1 (omega arith) page1-IsPage [] (refl, refl) tt

cxl_page_queue_push-Holds_example : Holds two queue (page2 ∷ page1 ∷ [])
cxl_page_queue_push-Holds_example =
    cxl_page_queue_push-Holds one queue page2 (omega arith) page2-IsPage (page1 ∷ []) one-Holds
      (omega arith)

two-Holds : Holds two queue (page2 ∷ page1 ∷ [])
two-Holds =
    cxl_page_queue_push-Holds one queue page2 (omega arith) page2-IsPage (page1 ∷ []) one-Holds
      (omega arith)

cxl_page_queue_remove-Holds_example :
    Holds (cxl_page_queue_remove queue page1 two) queue (page2 ∷ [])
cxl_page_queue_remove-Holds_example =
    cxl_page_queue_remove-Holds two queue page1 (omega arith) (page2 ∷ []) [] two-Holds
