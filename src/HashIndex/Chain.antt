-- ===== src/HashIndex/Chain.antt =====
-- The entries of one chain of the hash index, as a list of keys and values.
use sosp_paper19_ae.Base.{
  ℕ, zero, suc, ◌/◌, ◌^◌, ◌<◌, ◌≡◌, refl, ap, ◌∙◌, ◌≢◌, inl, inr, Option, none, some, List, [], ◌∷◌,
  arith, ◌==◌, if◌then◌else◌, length, Bool-cases, ne→==,
}
use sosp_paper19_ae.Memory.{Mem, ok}
use sosp_paper19_ae.Layout.{hash_entry}
use sosp_paper19_ae.HashIndex.{key_at, value_at, chain_at, Found, found, missing, find_key, get}

pub record Entry : Type 0 where
  pub offset : ℕ
  pub key : ℕ
  pub value : ℕ

-- The link at `link` leads through the entries, first to last.
abbrev pub Represents : Mem → ℕ → List Entry → Type 0
Represents m link [] = m link ≡ 0
Represents m link (e ∷ es) =
    (m link ≡ e.offset)
    × (e.offset ≢ 0)
    × (m (key_at e.offset) ≡ e.key)
    × (m (value_at e.offset) ≡ e.value)
    × Represents m (chain_at e.offset) es

-- The value of the first entry with the key.
abbrev pub lookup : ℕ → List Entry → Option ℕ
lookup key [] = none
lookup key (e ∷ es) = if e.key == key then some e.value else lookup key es

-- Where the search for the key ends.
abbrev pub locate : ℕ → ℕ → List Entry → Found
locate key link [] = missing link
locate key link (e ∷ es) =
    if e.key == key then found e.offset else locate key (chain_at e.offset) es

pub find_key-locate :
    (fuel key link : ℕ) (m : Mem) (es : List Entry)
    → length es < fuel
    → Represents m link es
    → find_key fuel key link m ≡ ok (locate key link es) m
unfolding find_key
find_key-locate zero key link m es lt h = absurd (omega arith)
find_key-locate (suc fuel) key link m [] lt h = rw h refl
find_key-locate (suc fuel) key link m (e ∷ es) lt h = elim (Bool-cases (e.key == key)) [
  | inl here ↦ rw (h.0, ne→== e.offset 0 h.1, h.2, here) refl
  | inr other ↦
      rw (h.0, ne→== e.offset 0 h.1, h.2, other)
        (find_key-locate fuel key (chain_at e.offset) m es (omega arith) h.4)
]

-- What `get` returns once the search is over.
abbrev pub value_of : Mem → Found → Option ℕ
value_of m (found o) = some (m (value_at o))
value_of m (missing link) = none

pub value_of-locate :
    (key link : ℕ) (m : Mem) (es : List Entry)
    → Represents m link es
    → value_of m (locate key link es) ≡ lookup key es
value_of-locate key link m [] h = refl
value_of-locate key link m (e ∷ es) h = elim (Bool-cases (e.key == key)) [
  | inl here ↦ rw here (ap some h.3)
  | inr other ↦ rw other (value_of-locate key (chain_at e.offset) m es h.4)
]

get-located :
    (fuel key : ℕ) (m : Mem) (at : Found)
    → find_key fuel key (hash_entry (key / 2 ^ 56) key) m ≡ ok at m
    → get fuel key m ≡ ok (value_of m at) m
unfolding get
get-located fuel key m (found o) h = rw h refl
get-located fuel key m (missing link) h = rw h refl

-- `get` returns the value of the first entry of the key's chain with the key, or nothing if there
-- is none, and changes nothing. More rounds than there are entries are enough.
pub get-lookup :
    (fuel key : ℕ) (m : Mem) (es : List Entry)
    → length es < fuel
    → Represents m (hash_entry (key / 2 ^ 56) key) es
    → get fuel key m ≡ ok (lookup key es) m
get-lookup fuel key m es lt h =
    let link = hash_entry (key / 2 ^ 56) key in
    get-located fuel key m (locate key link es) (find_key-locate fuel key link m es lt h)
    ∙ ap (λ v. ok v m) (value_of-locate key link m es h)
