-- ===== src/HashIndex.antt =====
-- src/hash_index.cpp: a hash table for each thread, in chains of objects of three words: a key, a
-- value, and the next object.
pub mod Chain
pub mod Update
mod Tests
pub mod Insert
pub mod Put
use sosp_paper19_ae.Base.{
  ℕ, zero, suc, ◌+◌, ◌-◌, ◌*◌, ◌/◌, ◌^◌, false, Option, none, some, ◌==◌, if◌then◌else◌,
}
use sosp_paper19_ae.Memory.{
  Mem, store, ok, out_of_fuel, Cmd, pure, ◌>>=◌, ◌>>◌, gets, modify, peek, poke, deref,
}
use sosp_paper19_ae.Layout.{
  cxlobj_size, ref_info_at, embedded_ref_cnt_at, pack_ref_info, cxl_page_queue, hash_entry,
}
use sosp_paper19_ae.Handle.{Shm, current_era}
use sosp_paper19_ae.Alloc.{cxl_find_page, cxl_page_malloc, pop_block}
use sosp_paper19_ae.RefCount.{link_reference}

-- The three words of an entry's object.
abbrev pub key_at : ℕ → ℕ
key_at o = o + cxlobj_size

abbrev pub value_at : ℕ → ℕ
value_at o = o + cxlobj_size + 8

abbrev pub chain_at : ℕ → ℕ
chain_at o = o + cxlobj_size + 16

-- Where the loop of `put` and of `get` stops: at the object with the key, or at the empty link at
-- the end of the chain.
pub data Found : Type 0 where
  found : ℕ → Found
  missing : ℕ → Found

-- `entry` is the address of a link.
unfoldable pub find_key : ℕ → ℕ → ℕ → Cmd Found
find_key zero key entry = λ _. out_of_fuel
find_key (suc fuel) key entry = λ m.
    let rest = find_key fuel key (chain_at (m entry)) m in
    if m entry == 0
    then ok (missing entry) m
    else if m (key_at (m entry)) == key
    then ok (found (m entry)) m
    else rest

abbrev pub entry_size : ℕ
entry_size = 3 * 8 + cxlobj_size

-- The object of a new entry, with a count of 0 until it is linked.
unfoldable pub init_entry : Shm → ℕ → ℕ → ℕ → ℕ → Mem → Mem
init_entry s b page key value m =
    let m1 = pop_block b page m in
    let info = pack_ref_info s.thread_id 0 (current_era s m1) in
    let m2 = store (store m1 (ref_info_at b) info) (embedded_ref_cnt_at b) 0 in
    store (store (store m2 (key_at b) key) (value_at b) value) (chain_at b) 0

-- `page` and `block` are used without a test for NULL.
unfoldable pub insert_entry : ℕ → Shm → ℕ → ℕ → ℕ → Cmd (Unit {0})
insert_entry fuel s entry key value = do
  let pq = cxl_page_queue s.tls_offset false entry_size
  page ← gets (cxl_find_page pq)
  (page', block) ← cxl_page_malloc fuel s pq page
  deref block
  modify (init_entry s block page' key value)
  modify (link_reference s entry block)

unfoldable pub put : ℕ → Shm → ℕ → ℕ → Cmd (Unit {0})
put fuel s key value = do
  at ← find_key fuel key (hash_entry (s.thread_id - 1) key)
  elim at [
    | found o ↦ poke (value_at o) value
    | missing entry ↦ insert_entry fuel s entry key value
  ]

-- The value, or `none` for `false`. The partition is the top byte of the key.
unfoldable pub get : ℕ → ℕ → Cmd (Option ℕ)
get fuel key = do
  at ← find_key fuel key (hash_entry (key / 2 ^ 56) key)
  elim at [ found o ↦ (do v ← peek (value_at o); pure (some v)) | missing entry ↦ pure none ]
