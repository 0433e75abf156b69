-- ===== src/PageQueue/Push.antt =====
-- A push puts the page in front of the list.
use sosp_paper19_ae.Base.{[], ◌∷◌, inr, ◌∙◌, ℕ, ◌≡◌, ◌≢◌, arith, List, ◌∉◌, All, ◌∷◌, sym, ◌∙◌}
use sosp_paper19_ae.Memory.{Mem, store}
use sosp_paper19_ae.Layout.{next_at, prev_at, last_at}
use sosp_paper19_ae.PageQueue.{cxl_page_queue_push}
use sosp_paper19_ae.PageQueue.Links.{IsLink}
use sosp_paper19_ae.PageQueue.Chain.{IsPage, IsQueueAt, Chain, Holds, Chain-frame}

module _ (m : Mem) (q p : ℕ) (at : IsQueueAt q) (page : IsPage p) where
  -- The fields of the pushed page and of the queue.
  push-null_fields :
      m q ≡ 0
      → (cxl_page_queue_push q p m (next_at p) ≡ 0)
        × (cxl_page_queue_push q p m (prev_at p) ≡ 0)
        × (cxl_page_queue_push q p m q ≡ p)
        × (cxl_page_queue_push q p m (last_at q) ≡ p)
  unfolding cxl_page_queue_push store
  push-null_fields e = ground arith

  push-page_fields :
      IsPage (m q)
      → m q ≢ p
      → (cxl_page_queue_push q p m (next_at p) ≡ m q)
        × (cxl_page_queue_push q p m (prev_at p) ≡ 0)
        × (cxl_page_queue_push q p m q ≡ p)
        × (cxl_page_queue_push q p m (last_at q) ≡ m (last_at q))
        × (cxl_page_queue_push q p m (next_at (m q)) ≡ m (next_at (m q)))
        × (cxl_page_queue_push q p m (prev_at (m q)) ≡ p)
  unfolding cxl_page_queue_push store
  push-page_fields first ne = ground arith

  -- A page that is neither pushed nor first keeps its links.
  push-other :
      IsLink (m q)
      → (x : ℕ) → IsPage x
      → x ≢ p
      → x ≢ m q
      → (cxl_page_queue_push q p m (next_at x) ≡ m (next_at x))
        × (cxl_page_queue_push q p m (prev_at x) ≡ m (prev_at x))
  unfolding cxl_page_queue_push store
  push-other first x is ne ne' = ground arith

  push-others :
      (before f : ℕ) (xs : List ℕ) (last : ℕ)
      → IsLink (m q)
      → Chain m before f xs last
      → p ∉ xs
      → m q ∉ xs
      → All
          (λ x.
            (cxl_page_queue_push q p m (next_at x) ≡ m (next_at x))
            × (cxl_page_queue_push q p m (prev_at x) ≡ m (prev_at x)))
          xs
  push-others before f [] last link c out out' = tt
  push-others before f (x ∷ xs) last link c out out' = (
    push-other link x c.1 (λ e. out.0 (sym e)) (λ e. out'.0 (sym e)),
    push-others x (m (next_at x)) xs last link c.4 out.1 out'.1,
  )

  -- A push to a queue without a first page makes the page its only one.
  pub cxl_page_queue_push-only : m q ≡ 0 → Holds (cxl_page_queue_push q p m) q (p ∷ [])
  cxl_page_queue_push-only e = let f = push-null_fields e in (f.2, page, f.1, tt, (f.0, f.3))

  -- `cxl_page_queue_push` makes the page the first of the list that the queue stands for, if the
  -- page is not in it.
  pub cxl_page_queue_push-Holds :
      (xs : List ℕ) → Holds m q xs → p ∉ xs → Holds (cxl_page_queue_push q p m) q (p ∷ xs)
  cxl_page_queue_push-Holds [] h out = cxl_page_queue_push-only h.0
  cxl_page_queue_push-Holds (x ∷ xs) h out =
      let is : IsPage (m q) = rw h.0 h.1 in
      let f = push-page_fields is (λ e. out.0 (sym e ∙ h.0)) in
      (
        f.2,
        page,
        f.1,
        out,
        (
          f.0 ∙ h.0,
          h.1,
          rw h.0 at f.5,
          h.3,
          rw (f.3, rw h.0 at f.4)
              (Chain-frame m (cxl_page_queue_push q p m) x (m (next_at x)) xs (m (last_at q))
                (push-others x (m (next_at x)) xs (m (last_at q)) (inr is) h.4 out.1 (rw h.0 h.3))
                h.4),
        ),
      )
