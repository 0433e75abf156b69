-- ===== src/PageQueue/Apart.antt =====
-- Two page queues that share no page do not disturb each other.
use sosp_paper19_ae.PageQueue.Remove.{cxl_page_queue_remove-Removed}
use sosp_paper19_ae.PageQueue.Erase.{Holds-middle}
use sosp_paper19_ae.Base.{
  ℕ, ◌+◌, ◌≤◌, ◌≡◌, ◌≢◌, ◌⊎◌, inl, inr, ◌∙◌, List, [], ◌∷◌, ◌++◌, arith, All, All-map, ◌∉◌,
  All-both, All-append, AreDistinct, ne→==, refl,
}
use sosp_paper19_ae.Memory.{Mem, store}
use sosp_paper19_ae.Layout.{next_at, prev_at, last_at}
use sosp_paper19_ae.PageQueue.{cxl_page_queue_push, cxl_page_queue_remove}
use sosp_paper19_ae.PageQueue.Chain.{IsPage, IsQueueAt, Chain, Chain-frame, Holds}
use sosp_paper19_ae.PageQueue.Frame.{
  fields_apart, cxl_page_queue_push-other, cxl_page_queue_remove-other, low-IsNoLink,
}
use sosp_paper19_ae.PageQueue.Links.{IsLink}

-- A `next` field is no `prev` field.
next-ne_prev : (x y : ℕ) → IsPage x → IsPage y → next_at x ≢ prev_at y
next-ne_prev x y is is' e = omega (arith, fields_apart 24 32 is is' (omega arith) (omega arith) e)

abbrev pub IsSame : Mem → Mem → ℕ → Type 0
IsSame m m' x = (m' (next_at x) ≡ m (next_at x)) × (m' (prev_at x) ≡ m (prev_at x))

pub push-IsSame :
    (m : Mem) (q p x : ℕ)
    → IsLink (m q)
    → IsPage p
    → IsQueueAt q
    → IsPage x
    → x ≢ p
    → x ≢ m q
    → IsSame m (cxl_page_queue_push q p m) x
unfolding cxl_page_queue_push store
push-IsSame m q p x (inl e) is at isx ne ne' =
    ground (arith, next-ne_prev x p isx is, next-ne_prev p x is isx)
push-IsSame m q p x (inr f) is at isx ne ne' =
    ground (arith, next-ne_prev x p isx is, next-ne_prev p x is isx, next-ne_prev x (m q) isx f)

-- A chain holds no page twice.
pub Chain-AreDistinct :
    (m : Mem) (before f : ℕ) (ys : List ℕ) (last : ℕ)
    → Chain m before f ys last
    → AreDistinct ys × All IsPage ys
Chain-AreDistinct m before f [] last c = (tt, tt)
Chain-AreDistinct m before f (y ∷ ys) last c =
    let r = Chain-AreDistinct m y (m (next_at y)) ys last c.4 in ((c.3, r.0), (c.1, r.1))

-- What holds of NULL and of the pages of a queue holds of the neighbours of one of them.
neighbours-All :
    (P : ℕ → Type 0) (m : Mem) (p b f : ℕ) (ys zs : List ℕ) (last : ℕ)
    → Chain m b f (ys ++ p ∷ zs) last
    → P 0
    → P b
    → All P (ys ++ p ∷ zs)
    → P (m (prev_at p)) × P (m (next_at p))
neighbours-All P m p b f [] [] last c null before all = (rw c.2 before, rw c.4.0 null)
neighbours-All P m p b f [] (z ∷ zs) last c null before all = (rw c.2 before, rw c.4.0 all.1.0)
neighbours-All P m p b f (y ∷ ys) zs last c null before all =
    neighbours-All P m p y (m (next_at y)) ys zs last c.4 null all.0 all.1

-- A chain goes on while the links of its pages are kept.
pub Holds-IsSame :
    (m m' : Mem) (q : ℕ) (ws : List ℕ)
    → m' q ≡ m q
    → m' (last_at q) ≡ m (last_at q)
    → All (IsSame m m') ws
    → Holds m q ws
    → Holds m' q ws
Holds-IsSame m m' q ws first last same h =
    rw (first, last) (Chain-frame m m' 0 (m q) ws (m (last_at q)) same h)

pub first-IsLink : (m : Mem) (q : ℕ) (ps : List ℕ) → Holds m q ps → IsLink (m q)
first-IsLink m q [] h = inl h.0
first-IsLink m q (x ∷ ps) h = inr (rw h.0 h.1)

first-ne : (m : Mem) (q : ℕ) (ps : List ℕ) (w : ℕ) → Holds m q ps → w ≢ 0 → w ∉ ps → w ≢ m q
first-ne m q [] w h ne out = λ e. ne (e ∙ h.0)
first-ne m q (x ∷ ps) w h ne out = λ e. out.0 (e ∙ h.0)

pub remove-apart :
    (m : Mem) (q q' p : ℕ) (ys zs ws : List ℕ)
    → IsQueueAt q
    → IsQueueAt q'
    → (q' + 16 ≤ q) ⊎ (q + 16 ≤ q')
    → Holds m q (ys ++ p ∷ zs)
    → Holds m q' ws
    → All (λ w. w ∉ (ys ++ p ∷ zs)) ws
    → Holds (cxl_page_queue_remove q p m) q' ws
remove-apart m q q' p ys zs ws at at' apart h h' out =
    let (is, prev, next, ne, ne') = Holds-middle m q p at ys zs h in
    let r = cxl_page_queue_remove-Removed m q p at is prev next ne ne' in
    let other : (a : ℕ) → a + 8 ≤ q' + 16 → q' ≤ a → cxl_page_queue_remove q p m a ≡ m a =
      λ a hi lo.
        cxl_page_queue_remove-other m q p a prev next is at (low-IsNoLink a (omega arith))
          (ground (arith, apart)) (ground (arith, apart)) in
    Holds-IsSame m (cxl_page_queue_remove q p m) q' ws (other q' (omega arith) (omega arith))
      (other (last_at q') (omega arith) (omega arith))
      (All-map (λ w. (w ∉ (ys ++ p ∷ zs)) × IsPage w) (IsSame m (cxl_page_queue_remove q p m)) ws
        (λ w k.
          let null : w ≢ 0 = omega (arith, k.1.high) in
          let n = neighbours-All (λ y. w ≢ y) m p 0 (m q) ys zs (m (last_at q)) h null null k.0 in
          let own = (All-append (λ y. w ≢ y) ys (p ∷ zs) k.0).1.0 in
          (
            r.next w k.1 own ∙ rw (ne→== w (m (prev_at p)) n.0) refl,
            r.prev w k.1 own ∙ rw (ne→== w (m (next_at p)) n.1) refl,
          ))
        (All-both (λ w. w ∉ (ys ++ p ∷ zs)) IsPage ws out
          (Chain-AreDistinct m 0 (m q') ws (m (last_at q')) h').1))
      h'

pub push-apart :
    (m : Mem) (q q' p : ℕ) (ps ws : List ℕ)
    → IsQueueAt q
    → IsQueueAt q'
    → (q' + 16 ≤ q) ⊎ (q + 16 ≤ q')
    → IsPage p
    → Holds m q ps
    → Holds m q' ws
    → All (λ w. w ∉ (p ∷ ps)) ws
    → Holds (cxl_page_queue_push q p m) q' ws
push-apart m q q' p ps ws at at' apart is h h' out =
    let link = first-IsLink m q ps h in
    let other : (a : ℕ) → a + 8 ≤ q' + 16 → q' ≤ a → cxl_page_queue_push q p m a ≡ m a = λ a hi lo.
      cxl_page_queue_push-other m q p a link is at (low-IsNoLink a (omega arith))
        (ground (arith, apart)) (ground (arith, apart)) in
    Holds-IsSame m (cxl_page_queue_push q p m) q' ws (other q' (omega arith) (omega arith))
      (other (last_at q') (omega arith) (omega arith))
      (All-map (λ w. (w ∉ (p ∷ ps)) × IsPage w) (IsSame m (cxl_page_queue_push q p m)) ws
        (λ w k.
          push-IsSame m q p w link is at k.1 k.0.0
            (first-ne m q ps w h (omega (arith, k.1.high)) k.0.1))
        (All-both (λ w. w ∉ (p ∷ ps)) IsPage ws out
          (Chain-AreDistinct m 0 (m q') ws (m (last_at q')) h').1))
      h'
