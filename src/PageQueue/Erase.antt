-- ===== src/PageQueue/Erase.antt =====
-- A removal takes its page out of the list and leaves the order of the others.
use sosp_paper19_ae.Base.{
  append-All, All-append, inl, inr, refl, ℕ, ◌≡◌, refl, sym, ◌∙◌, ◌≢◌, inl, inr, List, [], ◌∷◌,
  ◌++◌, arith, ◌==◌, if◌then◌else◌, eq→==, ne→==, All, ◌∉◌, All-append, append-All,
}
use sosp_paper19_ae.Memory.{Mem}
use sosp_paper19_ae.Layout.{next_at, prev_at, last_at}
use sosp_paper19_ae.PageQueue.{cxl_page_queue_remove}
use sosp_paper19_ae.PageQueue.Chain.{
  head-ne, prev-ne, next-ne, Holds, IsQueueAt, IsPage, IsQueueAt, Chain, Holds, Chain-frame,
  last-ne, prev-ne, next-ne,
}
use sosp_paper19_ae.PageQueue.Links.{IsLink}
use sosp_paper19_ae.PageQueue.{cxl_page_queue_remove}
use sosp_paper19_ae.PageQueue.Remove.{
  cxl_page_queue_remove-Removed, Removed, cxl_page_queue_remove-Removed,
}

if-ne {ℓ} : {A : Type ℓ} {a b : ℕ} (x y : A) → a ≢ b → (if a == b then x else y) ≡ y
if-ne x y h = rw (ne→== _ _ h)

if-eq {ℓ} : {A : Type ℓ} {a b : ℕ} (x y : A) → a ≡ b → (if a == b then x else y) ≡ x
if-eq x y h = rw (eq→== _ _ h)

IsPage-ne_zero : {p : ℕ} → IsPage p → p ≢ 0
IsPage-ne_zero h e = absurd (omega arith)

module _ (m m' : Mem) (q page : ℕ) (r : Removed m m' q page) where
  same_links :
      (before p : ℕ) (zs : List ℕ) (last : ℕ)
      → Chain m before p zs last
      → page ∉ zs
      → m (prev_at page) ∉ zs
      → m (next_at page) ∉ zs
      → All (λ x. (m' (next_at x) ≡ m (next_at x)) × (m' (prev_at x) ≡ m (prev_at x))) zs
  same_links before p [] last c out out' out'' = tt
  same_links before p (z ∷ zs) last c out out' out'' = (
    (
      r.next z c.1 (λ e. out.0 (sym e)) ∙ if-ne _ _ (λ e. out'.0 (sym e)),
      r.prev z c.1 (λ e. out.0 (sym e)) ∙ if-ne _ _ (λ e. out''.0 (sym e)),
    ),
    same_links z (m (next_at z)) zs last c.4 out.1 out'.1 out''.1,
  )

  -- The pages behind the removed one: the first of them gets its predecessor.
  erase-behind :
      (before : ℕ) (zs : List ℕ) (last : ℕ)
      → m (prev_at page) ≡ before
      → before ∉ zs
      → page ∉ zs
      → before ≢ page
      → Chain m page (m (next_at page)) zs last
      → Chain m' before (m (next_at page)) zs (if page == last then m (prev_at page) else last)
  erase-behind before [] last e out out' ne c = (c.0, if-eq _ _ (sym c.1) ∙ e)
  erase-behind before (z ∷ zs) last e out out' ne c =
      rw
        (if-ne (m (prev_at page)) last
          (λ x. last-ne m z (m (next_at z)) zs last page c.4 out'.0 out'.1 (sym x)))
        (
          c.0,
          c.1,
          r.prev z c.1 (λ x. out'.0 (sym x)) ∙ if-eq _ _ (sym c.0) ∙ e,
          c.3,
          rw (r.next z c.1 (λ x. out'.0 (sym x)) ∙ if-ne _ _ (λ x. out.0 (sym (x ∙ e)))) (
              Chain-frame m m' z (m (next_at z)) zs last
                (same_links z (m (next_at z)) zs last c.4 out'.1 (rw e out.1) (rw c.0 c.3)) c.4),
        )

  -- A page that stays in front of the removed one gets the link that its successor had.
  erase-next :
      (y : ℕ) (ys zs : List ℕ) (last : ℕ)
      → Chain m y (m (next_at y)) (ys ++ page ∷ zs) last
      → IsPage y
      → y ≢ page
      → y ∉ (ys ++ page ∷ zs)
      → m' (next_at y) ≡ (if page == m (next_at y) then m (next_at page) else m (next_at y))
  erase-next y [] zs last c is ne out =
      r.next y is ne ∙ if-eq _ _ (sym c.2) ∙ sym (if-eq _ _ (sym c.0))
  erase-next y (w ∷ ws) zs last c is ne out =
      r.next y is ne
      ∙ if-ne _ _ (λ e. prev-ne m page zs last w (m (next_at w)) ws y c.4 out.0 out.1 (sym e))
      ∙ sym (if-ne _ _ (λ e. (All-append _ ws (page ∷ zs) c.3).1.0 (sym (e ∙ c.0))))

  pub erase-Chain :
      (before p : ℕ) (ys zs : List ℕ) (last : ℕ)
      → Chain m before p (ys ++ page ∷ zs) last
      → before ≢ page
      → before ∉ (ys ++ page ∷ zs)
      → Chain m' before
          (if page == p then m (next_at page) else p)
          (ys ++ zs)
          (if page == last then m (prev_at page) else last)
  erase-Chain before p [] zs last c ne out =
      rw (if-eq (m (next_at page)) p (sym c.0)) (erase-behind before zs last c.2 out.1 c.3 ne c.4)
  erase-Chain before p (y ∷ ys) zs last c ne out =
      let apart = All-append (λ x. y ≢ x) ys (page ∷ zs) c.3 in
      let not_next = next-ne m page zs last y (m (next_at y)) ys y c.4 (IsPage-ne_zero c.1) c.3 in
      rw (if-ne (m (next_at page)) p (λ e. apart.1.0 (sym (e ∙ c.0)))) (
        c.0,
        c.1,
        r.prev y c.1 apart.1.0 ∙ if-ne _ _ (λ e. not_next (sym e)) ∙ c.2,
        append-All (λ x. y ≢ x) ys zs apart.0 apart.1.1,
        rw (erase-next y ys zs last c.4 c.1 apart.1.0 c.3)
            (erase-Chain y (m (next_at y)) ys zs last c.4 apart.1.0 c.3),
      )

module _ (m : Mem) (q page : ℕ) (at : IsQueueAt q) where
  IsLink-head : (b p : ℕ) (zs : List ℕ) (last : ℕ) → Chain m b p zs last → IsLink p
  IsLink-head b p [] last c = inl c.0
  IsLink-head b p (z ∷ zs) last c = inr (rw c.0 c.1)

  -- The neighbours of a page of a chain.
  neighbours :
      (b p : ℕ) (ys zs : List ℕ) (last : ℕ)
      → Chain m b p (ys ++ page ∷ zs) last
      → IsLink b
      → b ≢ page
      → IsPage page
        × IsLink (m (prev_at page))
        × IsLink (m (next_at page))
        × (m (prev_at page) ≢ page)
        × (m (next_at page) ≢ page)
  neighbours b p [] zs last c link ne = (
    c.1,
    rw c.2 link,
    IsLink-head page (m (next_at page)) zs last c.4,
    rw c.2 ne,
    head-ne m page (m (next_at page)) zs last page c.4 (IsPage-ne_zero c.1) c.3,
  )
  neighbours b p (y ∷ ys) zs last c link ne =
      neighbours y (m (next_at y)) ys zs last c.4 (inr c.1)
        (All-append (λ x. y ≢ x) ys (page ∷ zs) c.3).1.0

  zero-out : (b p : ℕ) (xs : List ℕ) (last : ℕ) → Chain m b p xs last → 0 ∉ xs
  zero-out b p [] last c = tt
  zero-out b p (x ∷ xs) last c =
      (λ e. IsPage-ne_zero c.1 (sym e), zero-out x (m (next_at x)) xs last c.4)

  -- `cxl_page_queue_remove` takes a page of the queue out, wherever it stands, and keeps the order
  -- of the rest.
  pub cxl_page_queue_remove-Holds :
      (ys zs : List ℕ)
      → Holds m q (ys ++ page ∷ zs)
      → Holds (cxl_page_queue_remove q page m) q (ys ++ zs)
  cxl_page_queue_remove-Holds ys zs h =
      let out = zero-out 0 (m q) (ys ++ page ∷ zs) (m (last_at q)) h in
      let ne = (All-append (λ x. 0 ≢ x) ys (page ∷ zs) out).1.0 in
      let n = neighbours 0 (m q) ys zs (m (last_at q)) h (inl refl) ne in
      let r = cxl_page_queue_remove-Removed m q page at n.0 n.1 n.2 n.3 n.4 in
      rw (r.first, r.last)
        (erase-Chain m (cxl_page_queue_remove q page m) q page r 0 (m q) ys zs (m (last_at q)) h ne
          out)

  -- A page of the queue, and its neighbours.
  pub Holds-middle :
      (ys zs : List ℕ)
      → Holds m q (ys ++ page ∷ zs)
      → IsPage page
        × IsLink (m (prev_at page))
        × IsLink (m (next_at page))
        × (m (prev_at page) ≢ page)
        × (m (next_at page) ≢ page)
  Holds-middle ys zs h =
      let out = zero-out 0 (m q) (ys ++ page ∷ zs) (m (last_at q)) h in
      let ne = (All-append (λ x. 0 ≢ x) ys (page ∷ zs) out).1.0 in
      let n = neighbours 0 (m q) ys zs (m (last_at q)) h (inl refl) ne in n
