-- ===== src/PageQueue/Frame.antt =====
-- What the operations on page queues leave alone.
use sosp_paper19_ae.Base.{
  dec_lt, ℕ, ◌+◌, ◌-◌, ◌≤◌, ◌<◌, ◌≡◌, sym, ◌≢◌, ◌⊎◌, inl, inr, List, [], ◌∷◌, arith, All, ◌∉◌,
}
use sosp_paper19_ae.Memory.{Mem, store}
use sosp_paper19_ae.Layout.{next_at, prev_at, last_at, cxl_page_size, segments_area_start}
use sosp_paper19_ae.PageQueue.{cxl_page_queue_push, cxl_page_queue_remove}
use sosp_paper19_ae.PageQueue.Chain.{page_apart, IsPage, IsQueueAt, Chain, Holds, Chain-frame}
use sosp_paper19_ae.PageQueue.Links.{IsLink}

-- A word that is not the `next` or `prev` field of a page.
abbrev pub IsNoLink : ℕ → Type 0
IsNoLink a = (y : ℕ) → IsPage y → (a ≢ next_at y) × (a ≢ prev_at y)

pub low-IsNoLink : (a : ℕ) → a < segments_area_start → IsNoLink a
low-IsNoLink a low y is = omega arith

-- Equal fields of two pages are the same field.
pub fields_apart :
    {x y : ℕ} (d d' : ℕ)
    → IsPage x
    → IsPage y
    → d < cxl_page_size
    → d' < cxl_page_size
    → x + d ≡ y + d'
    → d ≡ d'
fields_apart d d' is is' lt lt' e = elim (dec_lt d d') [
  | yes h ↦ absurd (omega (arith, page_apart (d' - d) is is' (omega arith) (omega arith)))
  | no h ↦ omega (arith, page_apart (d - d') is' is (omega arith) (omega arith))
]

-- The other fields of a page.
pub field-IsNoLink :
    (p d : ℕ) → IsPage p → (d < 24) ⊎ (40 ≤ d) → d < cxl_page_size → IsNoLink (p + d)
field-IsNoLink p d is other lt y is' = (
  (λ e. absurd (ground (arith, fields_apart d 24 is is' lt (omega arith) e))),
  (λ e. absurd (ground (arith, fields_apart d 32 is is' lt (omega arith) e))),
)

pub cxl_page_queue_push-other :
    (m : Mem) (q p a : ℕ)
    → IsLink (m q)
    → IsPage p
    → IsQueueAt q
    → IsNoLink a
    → a ≢ q
    → a ≢ last_at q
    → cxl_page_queue_push q p m a ≡ m a
unfolding cxl_page_queue_push store
cxl_page_queue_push-other m q p a (inl e) is at off ne ne' = ground (arith, off p is)
cxl_page_queue_push-other m q p a (inr f) is at off ne ne' = ground (arith, off p is, off (m q) f)

pub cxl_page_queue_remove-other :
    (m : Mem) (q p a : ℕ)
    → IsLink (m (prev_at p))
    → IsLink (m (next_at p))
    → IsPage p
    → IsQueueAt q
    → IsNoLink a
    → a ≢ q
    → a ≢ last_at q
    → cxl_page_queue_remove q p m a ≡ m a
unfolding cxl_page_queue_remove store
cxl_page_queue_remove-other m q p a (inl e) (inl e') is at off ne ne' = ground (arith, off p is)
cxl_page_queue_remove-other m q p a (inr f) (inl e') is at off ne ne' =
    ground (arith, off p is, off (m (prev_at p)) f)
cxl_page_queue_remove-other m q p a (inl e) (inr f') is at off ne ne' =
    ground (arith, off p is, off (m (next_at p)) f')
cxl_page_queue_remove-other m q p a (inr f) (inr f') is at off ne ne' =
    ground (arith, off p is, off (m (prev_at p)) f, off (m (next_at p)) f')

-- A queue goes on to hold its pages while their links, and its own words, are kept. `p` is a page
-- that it does not hold.
pub Holds-frame :
    (m m' : Mem) (q p : ℕ) (xs : List ℕ)
    → m' q ≡ m q
    → m' (last_at q) ≡ m (last_at q)
    → ((x : ℕ)
        → IsPage x
        → x ≢ p
        → (m' (next_at x) ≡ m (next_at x)) × (m' (prev_at x) ≡ m (prev_at x)))
    → p ∉ xs
    → Holds m q xs
    → Holds m' q xs
Holds-frame m m' q p xs first last same out h =
    rw (first, last)
      (Chain-frame m m' 0 (m q) xs (m (last_at q)) (links 0 (m q) xs (m (last_at q)) out h) h)
  where
    links :
        (before f : ℕ) (ys : List ℕ) (end : ℕ)
        → p ∉ ys
        → Chain m before f ys end
        → All (λ x. (m' (next_at x) ≡ m (next_at x)) × (m' (prev_at x) ≡ m (prev_at x))) ys
    links before f [] end out c = tt
    links before f (y ∷ ys) end out c =
        (same y c.1 (λ e. out.0 (sym e)), links y (m (next_at y)) ys end out.1 c.4)

-- The first page of a queue, and its neighbours.
pub Holds-first :
    (m : Mem) (q p : ℕ) (ps : List ℕ)
    → Holds m q (p ∷ ps)
    → (m q ≡ p) × IsPage p × (m (prev_at p) ≡ 0) × IsLink (m (next_at p)) × (p ∉ ps)
Holds-first m q p ps h = (h.0, h.1, h.2, link (m (next_at p)) ps (m (last_at q)) h.4, h.3)
  where
    link : (f : ℕ) (ys : List ℕ) (end : ℕ) → Chain m p f ys end → IsLink f
    link f [] end c = inl c.0
    link f (y ∷ ys) end c = inr (rw c.0 c.1)

-- A push onto an empty queue writes four words.
pub cxl_page_queue_push-empty :
    (m : Mem) (q p a : ℕ)
    → m q ≡ 0
    → IsPage p
    → IsQueueAt q
    → a ≢ q
    → a ≢ last_at q
    → a ≢ next_at p
    → a ≢ prev_at p
    → cxl_page_queue_push q p m a ≡ m a
unfolding cxl_page_queue_push store
cxl_page_queue_push-empty m q p a none_left is at ne ne' ne'' ne3 = ground arith

-- Two pages do not overlap.
pub pages_apart :
    (x p d : ℕ)
    → IsPage x
    → IsPage p
    → x ≢ p
    → d < cxl_page_size
    → (x + d < p) ⊎ (p + cxl_page_size ≤ x + d)
pages_apart x p d is is' ne lt = elim (dec_lt (x + d) p) [
  | yes low ↦ inl low
  | no high ↦ elim (dec_lt (x + d) (p + cxl_page_size)) [
    | yes within ↦
        absurd
          (ne (omega (arith, fields_apart d (x + d - p) is is' lt (omega arith) (omega arith))))
    | no past ↦ inr (omega arith)
  ]
]

-- The `free` field is no link.
pub free-IsNoLink : (p : ℕ) → IsPage p → IsNoLink p
free-IsNoLink p is y is' =
    let other = field-IsNoLink p 0 is (inl (omega arith)) (omega arith) y is' in
    (λ e. other.0 (omega arith), λ e. other.1 (omega arith))

-- NULL is no page of a queue.
Chain-no_null : (m : Mem) (before f : ℕ) (xs : List ℕ) (end : ℕ) → Chain m before f xs end → 0 ∉ xs
Chain-no_null m before f [] end h = tt
Chain-no_null m before f (x ∷ xs) end h =
    ((λ e. omega (arith, h.1)), Chain-no_null m x (m (next_at x)) xs end h.4)

-- Writes outside the pages and the queue keep what it holds.
pub Holds-outside :
    (m m' : Mem) (q : ℕ) (xs : List ℕ)
    → m' q ≡ m q
    → m' (last_at q) ≡ m (last_at q)
    → ((x : ℕ) → IsPage x → (m' (next_at x) ≡ m (next_at x)) × (m' (prev_at x) ≡ m (prev_at x)))
    → Holds m q xs
    → Holds m' q xs
Holds-outside m m' q xs first last same h =
    Holds-frame m m' q 0 xs first last (λ x is ne. same x is)
      (Chain-no_null m 0 (m q) xs (m (last_at q)) h) h

pub cxl_page_queue_push-first :
    (m : Mem) (q p : ℕ) → m q ≡ 0 → IsPage p → IsQueueAt q → cxl_page_queue_push q p m q ≡ p
unfolding cxl_page_queue_push store
cxl_page_queue_push-first m q p none_left is at = ground arith
