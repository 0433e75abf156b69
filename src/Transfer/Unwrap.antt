-- ===== src/Transfer/Unwrap.antt =====
-- `cxl_unwrap` of src/transfer.cpp with the root reference that the receiver allocates.
use sosp_paper19_ae.Transfer.Receive.{IsFree, receive-IsRing}
use sosp_paper19_ae.Transfer.Send.{IsApart}
use sosp_paper19_ae.RefCount.Frame.{HasClient}
use sosp_paper19_ae.Page.Blocks.{Links, Links-same}
use sosp_paper19_ae.Alloc.Root.{IsBeside, IsKept, IsRoot, thread_base_ref_alloc-hit}
use sosp_paper19_ae.Alloc.{thread_base_ref_alloc}
use sosp_paper19_ae.Base.{ℕ, ◌≤◌, ◌<◌, ◌≡◌, List, ◌∷◌, arith, ◌^◌, ◌∙◌, ap, ◌⊎◌, All, ◌+◌, All-map}
use sosp_paper19_ae.Memory.{Mem, ok}
use sosp_paper19_ae.Layout.{
  hash_table_start, max_thread, end_at, buffer_at, tls_at, cxl_page_size, pages_at, cxlobj_size,
  ref_info_at, get_ref_cnt_from_info, message_queue_size,
}
use sosp_paper19_ae.Handle.{Shm}
use sosp_paper19_ae.Thread.{handle_of}
use sosp_paper19_ae.Transfer.{cxl_unwrap}
use sosp_paper19_ae.Transfer.Ring.{IsRing}
use sosp_paper19_ae.Transfer.Join.{
  IsRing-frame, joined, joined-other, joined-IsRing, unwrap-receive,
}

-- A block that is no word of the queue.
abbrev pub IsSpare : ℕ → ℕ → ℕ → ℕ → Type 0
IsSpare q p b c = (hash_table_start ≤ c) × ((c < q) ⊎ (q + message_queue_size ≤ c)) × IsKept p b c

-- The receiver has a page of root references, with the blocks `b` and `bs` free, and neither the
-- page nor the blocks meet the queue or the count of the object.
pub record HasRoot (m : Mem) (tls q object p b : ℕ) (bs : List ℕ) : Type 0 where
  pub first : m (pages_at tls 0) ≡ p
  pub page_high : hash_table_start ≤ p
  pub beside : IsBeside p b
  pub blocks : Links m (m p) (b ∷ bs) 0
  pub spare : All (IsSpare q p b) bs
  pub page_queue : (p + cxl_page_size ≤ q) ⊎ (q + message_queue_size ≤ p)
  pub page_count : (ref_info_at object < p) ⊎ (p + cxl_page_size ≤ ref_info_at object)
  pub block : IsFree q object b

module _ (size i : ℕ) (few : i < max_thread) (q x p b : ℕ) (bs xs : List ℕ) (m : Mem)
    (high : hash_table_start ≤ q) (high' : hash_table_start ≤ x) (apart : IsApart q x)
    (root : HasRoot m (tls_at i) q x p b bs) where
  abbrev s : Shm
  s = handle_of size i

  abbrev entered : Mem
  entered = joined size i few q m high

  outside-entered :
      (a : ℕ) → hash_table_start ≤ a → (a < q) ⊎ (q + message_queue_size ≤ a) → entered a ≡ m a
  outside-entered a lo out =
      joined-other size i few q m high a (ground (arith, out)) (ground (arith, out)) (omega arith)

  entered-Links : Links entered (entered p) (b ∷ bs) 0
  entered-Links = rw (outside-entered p root.page_high (ground (arith, root.page_queue))) (
      Links-same m entered (λ a. (hash_table_start ≤ a) × ((a < q) ⊎ (q + message_queue_size ≤ a)))
        (m p) (b ∷ bs) 0 (λ a k. outside-entered a k.0 k.1)
        (
          (root.block.high, ground (arith, root.block.outside)),
          All-map (IsSpare q p b) _ bs (λ a k. (k.0, k.1)) root.spare,
        )
        root.blocks)

  allocated :
      (fuel : ℕ)
      → (m2 : Mem) × (thread_base_ref_alloc fuel s entered ≡ ok b m2) × IsRoot entered m2 p b bs
  allocated fuel =
      thread_base_ref_alloc-hit size i entered p b fuel bs
        (joined-other size i few q m high (pages_at (tls_at i) 0) (omega arith) (omega arith)
            (omega arith)
          ∙ root.first)
        (omega (arith, root.page_high)) (omega (arith, root.block.high)) root.beside entered-Links
        (All-map (IsSpare q p b) (IsKept p b) bs (λ a k. k.2) root.spare)

  module _ (m2 : Mem) (r : IsRoot entered m2 p b bs) where
    queue_word : (a : ℕ) → q ≤ a → a < q + message_queue_size → m2 a ≡ entered a
    queue_word a lo hi = r.kept a (
      ground (arith, root.block.outside),
      ground (arith, root.block.outside),
      ground (arith, root.page_queue),
      ground (arith, root.page_queue),
    )

    count_word : m2 (ref_info_at x) ≡ m (ref_info_at x)
    count_word =
        r.kept (ref_info_at x) (
          ground (arith, root.block.no_count),
          ground (arith, root.block.no_count),
          ground (arith, root.page_count),
          ground (arith, root.page_count),
        )
        ∙ outside-entered (ref_info_at x) (omega arith) (ground (arith, apart))

    root-IsRing : IsRing m q (x ∷ xs) → IsRing m2 q (x ∷ xs)
    root-IsRing h =
        IsRing-frame entered m2 q (x ∷ xs) (queue_word q (omega arith) (omega arith))
          (queue_word (end_at q) (omega arith) (omega arith))
          (λ j lt. queue_word (buffer_at q j) (omega arith) (omega arith))
          (joined-IsRing size i few q m high (x ∷ xs) h)

  -- When the queue holds objects and the receiver has a page with a free root reference, `cxl_unwrap`
  -- returns a handle on the first object: its root reference leads there, the queue holds the others,
  -- and the count of the object is what it was. The count must be at least 1 and have room for one
  -- more, and the page and its blocks must not meet the queue or the count.
  pub cxl_unwrap-first :
      (fuel : ℕ)
      → IsRing m q (x ∷ xs)
      → HasClient (m (ref_info_at x))
      → get_ref_cnt_from_info (m (ref_info_at x)) + 1 < 2 ^ 16
      → 0 < get_ref_cnt_from_info (m (ref_info_at x))
      → (m' : Mem) × (cxl_unwrap fuel s q m ≡ ok (record { tbr = b; value = x + cxlobj_size }) m')
        × IsRing m' q xs
        × (m' b ≡ x)
        × (get_ref_cnt_from_info (m' (ref_info_at x)) ≡ get_ref_cnt_from_info (m (ref_info_at x)))
  cxl_unwrap-first fuel h c room held =
      let (m2, run, r) = allocated fuel in
      let same = count_word m2 r in
      let (m', received, ring, leads, count) =
        receive-IsRing size i few q x b m2 high high' apart root.block (rw same c) (rw same room)
          fuel entered xs run (root-IsRing m2 r h) (rw same held) in
      (
        m',
        unwrap-receive size i few q m high fuel x xs h ∙ received,
        ring,
        leads,
        count ∙ ap get_ref_cnt_from_info same,
      )
