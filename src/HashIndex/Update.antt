-- ===== src/HashIndex/Update.antt =====
-- `put` of a key that the hash index has.
use sosp_paper19_ae.Base.{
  ℕ_discrete, ℕ, ◌+◌, ◌-◌, ◌/◌, ◌^◌, ◌≤◌, ◌<◌, ◌≡◌, refl, sym, ap, ◌∙◌, ◌≢◌, ◌⊎◌, inl, inr, none,
  some, List, [], ◌∷◌, arith, ◌==◌, if◌then◌else◌, length, All, Bool-cases, eq→==, ne→==, ==→eq,
}
use sosp_paper19_ae.Memory.{store_self, store_other, Mem, store, ok}
use sosp_paper19_ae.Layout.{hash_entry}
use sosp_paper19_ae.Handle.{Shm}
use sosp_paper19_ae.HashIndex.{key_at, value_at, chain_at, entry_size, found, find_key, put, get}
use sosp_paper19_ae.HashIndex.Chain.{Entry, Represents, lookup, locate, find_key-locate, get-lookup}

-- The first entry with the key gets the value.
abbrev pub update : ℕ → ℕ → List Entry → List Entry
update key value [] = []
update key value (e ∷ es) =
    if e.key == key
    then record { offset = e.offset; key = e.key; value = value } ∷ es
    else e ∷ update key value es

abbrev pub offset_of : ℕ → List Entry → ℕ
offset_of key [] = 0
offset_of key (e ∷ es) = if e.key == key then e.offset else offset_of key es

-- A link outside the entries.
abbrev pub IsOutside : ℕ → List Entry → Type 0
IsOutside link es = All (λ e. (link < e.offset) ⊎ (e.offset + entry_size ≤ link)) es

-- The entries do not overlap.
abbrev pub IsApart : List Entry → Type 0
IsApart [] = Unit
IsApart (e ∷ es) =
    All (λ d. (e.offset + entry_size ≤ d.offset) ⊎ (d.offset + entry_size ≤ e.offset)) es
    × IsApart es

pub locate-found :
    (key link : ℕ) (es : List Entry)
    → lookup key es ≢ none
    → locate key link es ≡ found (offset_of key es)
locate-found key link [] has = absurd (has refl)
locate-found key link (e ∷ es) has = elim (Bool-cases (e.key == key)) [
  | inl here ↦ rw here refl
  | inr other ↦ rw other (locate-found key (chain_at e.offset) es (rw other at has))
]

offset_of-All :
    (P : ℕ → Type 0) (key : ℕ) (es : List Entry)
    → lookup key es ≢ none
    → All (λ e. P e.offset) es
    → P (offset_of key es)
offset_of-All P key [] has h = absurd (has refl)
offset_of-All P key (e ∷ es) has h = elim (Bool-cases (e.key == key)) [
  | inl here ↦ rw here h.0
  | inr other ↦ rw other (offset_of-All P key es (rw other at has) h.1)
]

-- A write outside the link and the entries changes nothing.
Represents-frame :
    (m : Mem) (a v link : ℕ) (es : List Entry)
    → link ≢ a
    → IsOutside a es
    → Represents m link es
    → Represents (store m a v) link es
unfolding store
Represents-frame m a v link [] ne out h = rw (ne→== link a ne) h
Represents-frame m a v link (e ∷ es) ne out h = (
  rw (ne→== link a ne) h.0,
  h.1,
  rw (ne→== (key_at e.offset) a (ground (arith, out.0))) h.2,
  rw (ne→== (value_at e.offset) a (ground (arith, out.0))) h.3,
  Represents-frame m a v (chain_at e.offset) es (ground (arith, out.0)) out.1 h.4,
)

pub IsApart-IsOutside :
    (o a : ℕ) (es : List Entry)
    → o ≤ a
    → a < o + entry_size
    → All (λ e. (o + entry_size ≤ e.offset) ⊎ (e.offset + entry_size ≤ o)) es
    → IsOutside a es
IsApart-IsOutside o a [] lo hi h = tt
IsApart-IsOutside o a (e ∷ es) lo hi h = (ground (arith, h.0), IsApart-IsOutside o a es lo hi h.1)

-- The links through an entry, given those from it on.
cons-Represents :
    (m : Mem) (a v link : ℕ) (e : Entry) (es : List Entry)
    → link ≢ a
    → (a < e.offset) ⊎ (e.offset + entry_size ≤ a)
    → (m link ≡ e.offset)
      × (e.offset ≢ 0)
      × (m (key_at e.offset) ≡ e.key)
      × (m (value_at e.offset) ≡ e.value)
    → Represents (store m a v) (chain_at e.offset) es
    → Represents (store m a v) link (e ∷ es)
unfolding store
cons-Represents m a v link e es ne out h rest = (
  rw (ne→== link a ne) h.0,
  h.1,
  rw (ne→== (key_at e.offset) a (ground (arith, out))) h.2,
  rw (ne→== (value_at e.offset) a (ground (arith, out))) h.3,
  rest,
)

store-update :
    (m : Mem) (key v link : ℕ) (es : List Entry)
    → lookup key es ≢ none
    → IsOutside link es
    → IsApart es
    → Represents m link es
    → Represents (store m (value_at (offset_of key es)) v) link (update key v es)
store-update m key v link [] has out apart h = absurd (has refl)
store-update m key v link (e ∷ es) has out apart h = elim (Bool-cases (e.key == key)) [
  | inl here ↦ rw here (
    store_other m (value_at e.offset) v link (ground (arith, out.0)) ∙ h.0,
    h.1,
    store_other m (value_at e.offset) v (key_at e.offset) (omega arith) ∙ h.2,
    store_self m (value_at e.offset) v,
    Represents-frame m (value_at e.offset) v (chain_at e.offset) es (omega arith)
        (IsApart-IsOutside e.offset (value_at e.offset) es (omega arith) (omega arith) apart.0) h.4,
  )
  | inr other ↦
      let has' : lookup key es ≢ none = rw other at has in
      let beside =
        offset_of-All (λ o. (e.offset + entry_size ≤ o) ⊎ (o + entry_size ≤ e.offset)) key es has'
          apart.0 in
      let after = offset_of-All (λ o. (link < o) ⊎ (o + entry_size ≤ link)) key es has' out.1 in
      rw other (
        cons-Represents m (value_at (offset_of key es)) v link e (update key v es)
          (ground (arith, after)) (ground (arith, beside)) (h.0, h.1, h.2, h.3)
          (store-update m key v (chain_at e.offset) es has'
            (IsApart-IsOutside e.offset (chain_at e.offset) es (omega arith) (omega arith) apart.0)
            apart.1 h.4))
]

length-update : (key v : ℕ) (es : List Entry) → length (update key v es) ≡ length es
length-update key v [] = refl
length-update key v (e ∷ es) = elim (Bool-cases (e.key == key)) [
  | inl here ↦ rw here refl
  | inr other ↦ rw (other, length-update key v es) refl
]

put-located :
    (fuel key v o : ℕ) (s : Shm) (m : Mem)
    → find_key fuel key (hash_entry (s.thread_id - 1) key) m ≡ ok (found o) m
    → put fuel s key v m ≡ ok tt (store m (value_at o) v)
unfolding put
put-located fuel key v o s m h = rw h refl

-- `put` of a key that is in the chain of the thread's own table gives the first entry with the key
-- the new value, and leaves the keys, the links and the other values. The entries must not overlap.
pub put-update :
    (fuel key v : ℕ) (s : Shm) (m : Mem) (es : List Entry)
    → length es < fuel
    → lookup key es ≢ none
    → IsOutside (hash_entry (s.thread_id - 1) key) es
    → IsApart es
    → Represents m (hash_entry (s.thread_id - 1) key) es
    → (m' : Mem) × (put fuel s key v m ≡ ok tt m')
      × Represents m' (hash_entry (s.thread_id - 1) key) (update key v es)
put-update fuel key v s m es lt has out apart h =
    let link = hash_entry (s.thread_id - 1) key in
    (
      store m (value_at (offset_of key es)) v,
      put-located fuel key v (offset_of key es) s m (
          find_key-locate fuel key link m es lt h
          ∙ ap (λ f. ok f m) (locate-found key link es has)),
      store-update m key v link es has out apart h,
    )

-- The value that an update writes is the one that is found, and other keys keep theirs.
pub lookup-update :
    (key key' v : ℕ) (es : List Entry)
    → lookup key es ≢ none
    → lookup key' (update key v es) ≡ (if key' == key then some v else lookup key' es)
lookup-update key key' v [] has = absurd (has refl)
lookup-update key key' v (e ∷ es) has = elim (Bool-cases (e.key == key)) [
  | inl here ↦ rw here (elim (ℕ_discrete key' key) [
    | yes q ↦ rw (q, here, eq→== key key refl) refl
    | no ne ↦ rw (ne→== key' key ne, ne→== e.key key' (λ q. ne (sym q ∙ ==→eq e.key key here))) refl
  ])
  | inr other ↦
      rw (other, lookup-update key key' v es (rw other at has))
        (elim (ℕ_discrete key' key) [
          | yes q ↦ rw (q, other, eq→== key key refl) refl
          | no ne ↦ rw (ne→== key' key ne) refl
        ])
]

-- After `put` of a key of the index, in the partition of the thread, `get` finds the new value under
-- the key, and under any other key of the same chain what it found before. The entries must not
-- overlap; more rounds than there are entries are enough.
pub put-get :
    (fuel key key' v : ℕ) (s : Shm) (m : Mem) (es : List Entry)
    → length es < fuel
    → lookup key es ≢ none
    → hash_entry (s.thread_id - 1) key ≡ hash_entry (key' / 2 ^ 56) key'
    → IsOutside (hash_entry (s.thread_id - 1) key) es
    → IsApart es
    → Represents m (hash_entry (s.thread_id - 1) key) es
    → (m' : Mem) × (put fuel s key v m ≡ ok tt m')
      × (get fuel key' m' ≡ ok (if key' == key then some v else lookup key' es) m')
put-get fuel key key' v s m es lt has same out apart h =
    let (m', done, links) = put-update fuel key v s m es lt has out apart h in
    (
      m',
      done,
      get-lookup fuel key' m' (update key v es) (omega (arith, length-update key v es))
            (rw (sym same) links)
          ∙ ap (λ r. ok r m') (lookup-update key key' v es has),
    )
