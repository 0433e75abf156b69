-- ===== src/HashIndex/Put.antt =====
-- `put` of a new key: the whole of it, with the block that the allocator gives.
use sosp_paper19_ae.Base.{
  ℕ, ◌-◌, ◌≤◌, ◌<◌, ◌≡◌, refl, ap, ◌∙◌, none, List, [], ◌∷◌, ◌++◌, arith, length, All, ne→==, false,
}
use sosp_paper19_ae.Memory.{Mem, ok}
use sosp_paper19_ae.Layout.{hash_entry, hash_table_start, max_thread, cxl_page_queue}
use sosp_paper19_ae.Handle.{Shm}
use sosp_paper19_ae.Thread.{handle_of}
use sosp_paper19_ae.Alloc.{cxl_find_page, cxl_page_malloc}
use sosp_paper19_ae.HashIndex.{
  key_at, value_at, chain_at, entry_size, missing, find_key, put, insert_entry,
}
use sosp_paper19_ae.HashIndex.Chain.{Entry, Represents, lookup, find_key-locate}
use sosp_paper19_ae.HashIndex.Update.{IsOutside, IsApart}
use sosp_paper19_ae.HashIndex.Insert.{
  last_link, locate-missing, Represents-append, IsKept, made-key, made-value, made-chain, linked,
  linked-last, linked-kept, linked-entry,
}

last_link-All :
    (K : ℕ → Type 0) (link : ℕ) (es : List Entry)
    → K link
    → All (λ x. K (key_at x.offset) × K (value_at x.offset) × K (chain_at x.offset)) es
    → K (last_link link es)
last_link-All K link [] kl ks = kl
last_link-All K link (x ∷ xs) kl ks = last_link-All K (chain_at x.offset) xs ks.0.2 ks.1

module _ (size i fuel key v page block : ℕ) (few : i < max_thread) (m m1 : Mem) (es : List Entry)
    (high : hash_table_start ≤ block) where
  abbrev s : Shm
  s = handle_of size i

  abbrev link : ℕ
  link = hash_entry (s.thread_id - 1) key

  abbrev queue : ℕ
  queue = cxl_page_queue s.tls_offset false entry_size

  abbrev entry : Entry
  entry = record { offset = block; key = key; value = v }

  module _ (kl : IsKept page block link)
      (ks : All
        (λ x.
          IsKept page block (key_at x.offset)
          × IsKept page block (value_at x.offset)
          × IsKept page block (chain_at x.offset))
        es) where
    last-IsKept : IsKept page block (last_link link es)
    last-IsKept = last_link-All (IsKept page block) link es kl ks

    abbrev after : Mem
    after = linked size i key v page block few m1 high (last_link link es) last-IsKept

    put-linked :
        find_key fuel key link m ≡ ok (missing (last_link link es)) m
        → cxl_page_malloc fuel s queue (cxl_find_page queue m) m ≡ ok (page, block) m1
        → put fuel s key v m ≡ ok tt after
    unfolding put insert_entry
    put-linked stop alloc = rw (stop, alloc, ne→== block 0 (omega arith)) refl

    new_entry : Represents after (last_link link es) (entry ∷ [])
    new_entry =
        let word =
          linked-entry size i key v page block few m1 high (last_link link es) last-IsKept in
        (
          linked-last size i key v page block few m1 high (last_link link es) last-IsKept,
          omega arith,
          word (key_at block) (omega arith) (omega arith)
              ∙ made-key size i key v page block few m1 high,
          word (value_at block) (omega arith) (omega arith)
              ∙ made-value size i key v page block few m1 high,
          word (chain_at block) (omega arith) (omega arith)
              ∙ made-chain size i key v page block few m1 high,
        )

    -- `put` of a key that the chain does not have, in the partition of thread `i + 1`: if the
    -- allocator gives block `block` of page `page` and leaves the chain in the region `m1`, the chain
    -- gets one more entry at its end, with the key and the value. The entries, the block and the
    -- first words of the page's descriptor must not overlap.
    pub put-insert :
        length es < fuel
        → lookup key es ≡ none
        → cxl_page_malloc fuel s queue (cxl_find_page queue m) m ≡ ok (page, block) m1
        → Represents m link es
        → Represents m1 link es
        → IsOutside link es
        → IsApart es
        → (m' : Mem) × (put fuel s key v m ≡ ok tt m') × Represents m' link (es ++ entry ∷ [])
    put-insert lt absent alloc h h1 out apart = (
      after,
      put-linked
          (find_key-locate fuel key link m es lt h
            ∙ ap (λ f. ok f m) (locate-missing key link es absent))
          alloc,
      Represents-append m1 after (IsKept page block) link es entry
          (linked-kept size i key v page block few m1 high (last_link link es) last-IsKept) kl ks
          out apart h1 new_entry,
    )
