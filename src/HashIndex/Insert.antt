-- ===== src/HashIndex/Insert.antt =====
-- `put` of a key that the hash index does not have.
use mathlib.Core.Option.{some-ne-none}
use sosp_paper19_ae.Base.{
  ℕ, ◌+◌, ◌≤◌, ◌<◌, ◌≡◌, refl, sym, ◌∙◌, ◌≢◌, ◌⊎◌, inl, inr, none, List, [], ◌∷◌, ◌++◌, arith, ◌==◌,
  All, Bool-cases, eq→==, ne→==,
}
use sosp_paper19_ae.Memory.{Mem, store}
use sosp_paper19_ae.Layout.{
  hash_table_start, max_thread, counts_at, ref_info_at, embedded_ref_cnt_at, pack_ref_info,
}
use sosp_paper19_ae.Layout.RefInfo.{pack_ref_info_fields}
use sosp_paper19_ae.Handle.{Shm, current_era, inc_page_used, set_page_used}
use sosp_paper19_ae.Thread.{handle_of}
use sosp_paper19_ae.Alloc.{pop_block}
use sosp_paper19_ae.RefCount.{link_reference}
use sosp_paper19_ae.RefCount.Frame.{HasClient}
use sosp_paper19_ae.RefCount.Count.{link_reference-high}
use sosp_paper19_ae.Redo.Logged.{current_era-lt}
use sosp_paper19_ae.HashIndex.{key_at, value_at, chain_at, entry_size, missing, init_entry}
use sosp_paper19_ae.HashIndex.Chain.{Entry, Represents, lookup, locate}
use sosp_paper19_ae.HashIndex.Update.{IsOutside, IsApart, IsApart-IsOutside}

-- The empty link at the end of a chain.
abbrev pub last_link : ℕ → List Entry → ℕ
last_link link [] = link
last_link link (e ∷ es) = last_link (chain_at e.offset) es

pub locate-missing :
    (key link : ℕ) (es : List Entry)
    → lookup key es ≡ none
    → locate key link es ≡ missing (last_link link es)
locate-missing key link [] none_found = refl
locate-missing key link (e ∷ es) none_found = elim (Bool-cases (e.key == key)) [
  | inl here ↦ absurd (some-ne-none e.value (rw here at none_found))
  | inr other ↦ rw other (locate-missing key (chain_at e.offset) es (rw other at none_found))
]

last_link-ne : (link a : ℕ) (es : List Entry) → a ≢ link → IsOutside a es → last_link link es ≢ a
last_link-ne link a [] ne out = λ e. ne (sym e)
last_link-ne link a (e ∷ es) ne out =
    last_link-ne (chain_at e.offset) a es (ground (arith, out.0)) out.1

-- One entry more, at the end of the chain, when the words of the others keep their values.
pub Represents-append :
    (m m' : Mem) (K : ℕ → Type 0) (link : ℕ) (es : List Entry) (e : Entry)
    → ((a : ℕ) → K a → a ≢ last_link link es → m' a ≡ m a)
    → K link
    → All (λ x. K (key_at x.offset) × K (value_at x.offset) × K (chain_at x.offset)) es
    → IsOutside link es
    → IsApart es
    → Represents m link es
    → Represents m' (last_link link es) (e ∷ [])
    → Represents m' link (es ++ e ∷ [])
Represents-append m m' K link [] e same kl ks out apart h new = new
Represents-append m m' K link (x ∷ xs) e same kl ks out apart h new = (
  same link kl (λ q. last_link-ne (chain_at x.offset) link xs (ground (arith, out.0)) out.1 (sym q))
      ∙ h.0,
  h.1,
  same (key_at x.offset) ks.0.0 (inside (key_at x.offset) (omega arith) (omega arith) (omega arith))
      ∙ h.2,
  same (value_at x.offset) ks.0.1
        (inside (value_at x.offset) (omega arith) (omega arith) (omega arith))
      ∙ h.3,
  Represents-append m m' K (chain_at x.offset) xs e same ks.0.2 ks.1
      (IsApart-IsOutside x.offset (chain_at x.offset) xs (omega arith) (omega arith) apart.0)
      apart.1 h.4 new,
)
  where
    inside :
        (a : ℕ)
        → x.offset ≤ a
        → a < x.offset + entry_size
        → a ≢ chain_at x.offset
        → a ≢ last_link (chain_at x.offset) xs
    inside a lo hi ne q =
        last_link-ne (chain_at x.offset) a xs ne (IsApart-IsOutside x.offset a xs lo hi apart.0)
          (sym q)

-- A word that neither the object at `block` nor the counting of the block in its page writes.
pub record IsKept (page block a : ℕ) : Type 0 where
  pub upper : hash_table_start ≤ a
  pub beside : (a < block) ⊎ (block + entry_size ≤ a)
  pub no_free : a ≢ page
  pub no_counts : a ≢ counts_at page

module _ (size i key v page block : ℕ) (few : i < max_thread) (m : Mem)
    (high : hash_table_start ≤ block) where
  abbrev s : Shm
  s = handle_of size i

  -- The new object, not linked yet.
  abbrev pub made : Mem
  made = init_entry s block page key v m

  made-other : (a : ℕ) → IsKept page block a → made a ≡ m a
  unfolding init_entry pop_block inc_page_used set_page_used store
  made-other a k =
      rw
        (
          ne→== a (chain_at block) (ground (arith, k.beside)),
          ne→== a (value_at block) (ground (arith, k.beside)),
          ne→== a (key_at block) (ground (arith, k.beside)),
          ne→== a (embedded_ref_cnt_at block) (ground (arith, k.beside)),
          ne→== a (ref_info_at block) (ground (arith, k.beside)),
          ne→== a page k.no_free,
          ne→== a (counts_at page) k.no_counts,
        )
        refl

  pub made-key : made (key_at block) ≡ key
  unfolding init_entry store
  made-key = ground arith

  pub made-value : made (value_at block) ≡ v
  unfolding init_entry store
  made-value = ground arith

  pub made-chain : made (chain_at block) ≡ 0
  unfolding init_entry store
  made-chain = ground arith

  made-word :
      made (ref_info_at block) ≡ pack_ref_info (i + 1) 0 (current_era s (pop_block block page m))
  unfolding init_entry store
  made-word = ground arith

  made-HasClient : HasClient (made (ref_info_at block))
  made-HasClient =
      rw
        (
          made-word,
          (pack_ref_info_fields (i + 1) 0 (current_era s (pop_block block page m)) (omega arith)
              (omega arith) (current_era-lt size i few (pop_block block page m))).0,
        )
        (omega arith, omega arith)

  module _ (last : ℕ) (last_kept : IsKept page block last) where
    abbrev pub linked : Mem
    linked = link_reference s last block made

    pub linked-last : linked last ≡ block
    linked-last =
        link_reference-high size i few last block made made-HasClient last last_kept.upper
        ∙ rw (eq→== last last refl) refl

    linked-other :
        (a : ℕ) → hash_table_start ≤ a → a ≢ last → a ≢ ref_info_at block → linked a ≡ made a
    linked-other a hi ne ne' =
        link_reference-high size i few last block made made-HasClient a hi
        ∙ rw (ne→== a last ne, ne→== a (ref_info_at block) ne') refl

    pub linked-kept : (a : ℕ) → IsKept page block a → a ≢ last → linked a ≡ m a
    linked-kept a k ne = linked-other a k.upper ne (ground (arith, k.beside)) ∙ made-other a k

    -- The words of the new entry.
    pub linked-entry : (a : ℕ) → block + 16 ≤ a → a < block + entry_size → linked a ≡ made a
    linked-entry a lo hi =
        linked-other a (omega arith) (ground (arith, last_kept.beside)) (omega arith)
