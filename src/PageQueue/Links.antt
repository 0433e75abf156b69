-- ===== src/PageQueue/Links.antt =====
-- What each step of a removal writes: one link, and nothing else of a page or of the queue.
use sosp_paper19_ae.Base.{ℕ, ◌≡◌, ◌≢◌, ◌⊎◌, arith, ◌==◌, if◌then◌else◌}
use sosp_paper19_ae.Memory.{Mem, store}
use sosp_paper19_ae.Layout.{next_at, prev_at, last_at}
use sosp_paper19_ae.PageQueue.{clear_links, unlink_prev, unlink_next, unlink_last, unlink_first}
use sosp_paper19_ae.PageQueue.Chain.{IsPage, IsQueueAt}

-- The first page of a queue, or the neighbour of a page: a page or NULL.
abbrev pub IsLink : ℕ → Type 0
IsLink p = (p ≡ 0) ⊎ IsPage p

module _ (m : Mem) (q page : ℕ) (at : IsQueueAt q) (is : IsPage page) where
  pub unlink_prev-queue :
      IsLink (m (prev_at page))
      → (unlink_prev page m q ≡ m q) × (unlink_prev page m (last_at q) ≡ m (last_at q))
  unfolding unlink_prev store
  unlink_prev-queue link = ground arith

  pub unlink_prev-page :
      IsLink (m (prev_at page))
      → (x : ℕ) → IsPage x
      → (unlink_prev page m (prev_at x) ≡ m (prev_at x))
        × (unlink_prev page m (next_at x)
            ≡ (if x == m (prev_at page) then m (next_at page) else m (next_at x)))
  unfolding unlink_prev store
  unlink_prev-page link x isx = ground arith

  pub unlink_next-queue :
      (n : ℕ)
      → IsLink n
      → (unlink_next n page m q ≡ m q) × (unlink_next n page m (last_at q) ≡ m (last_at q))
  unfolding unlink_next store
  unlink_next-queue n link = ground arith

  pub unlink_next-page :
      (n : ℕ)
      → IsLink n
      → (x : ℕ) → IsPage x
      → (unlink_next n page m (next_at x) ≡ m (next_at x))
        × (unlink_next n page m (prev_at x) ≡ (if x == n then m (prev_at page) else m (prev_at x)))
  unfolding unlink_next store
  unlink_next-page n link x isx = ground arith

  pub unlink_last-queue :
      (unlink_last q page m q ≡ m q)
      × (unlink_last q page m (last_at q)
          ≡ (if page == m (last_at q) then m (prev_at page) else m (last_at q)))
  unfolding unlink_last store
  unlink_last-queue = ground arith

  pub unlink_last-page :
      (x : ℕ)
      → IsPage x
      → (unlink_last q page m (next_at x) ≡ m (next_at x))
        × (unlink_last q page m (prev_at x) ≡ m (prev_at x))
  unfolding unlink_last store
  unlink_last-page x isx = ground arith

  pub unlink_first-queue :
      (unlink_first q page m q ≡ (if page == m q then m (next_at page) else m q))
      × (unlink_first q page m (last_at q) ≡ m (last_at q))
  unfolding unlink_first store
  unlink_first-queue = ground arith

  pub unlink_first-page :
      (x : ℕ)
      → IsPage x
      → (unlink_first q page m (next_at x) ≡ m (next_at x))
        × (unlink_first q page m (prev_at x) ≡ m (prev_at x))
  unfolding unlink_first store
  unlink_first-page x isx = ground arith

  pub clear_links-other :
      (clear_links page m q ≡ m q)
      × (clear_links page m (last_at q) ≡ m (last_at q))
      × ((x : ℕ)
          → IsPage x
          → x ≢ page
          → (clear_links page m (next_at x) ≡ m (next_at x))
            × (clear_links page m (prev_at x) ≡ m (prev_at x)))
  unfolding clear_links store
  clear_links-other = (ground arith, ground arith, λ x isx ne. ground arith)
