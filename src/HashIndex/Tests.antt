-- ===== src/HashIndex/Tests.antt =====
-- A chain of one entry, of key 5, in the first partition.
use mathlib.Core.Option.{some-ne-none}
use sosp_paper19_ae.Base.{
  false, ℕ, ◌+◌, ◌≡◌, refl, inl, arith, some, [], ◌∷◌, List, ◌==◌, if◌then◌else◌,
}
use sosp_paper19_ae.Memory.{Mem, ok}
use sosp_paper19_ae.Layout.{
  meta_page_at, pages_at, tls_at, cxl_page_queue, segments_area_start, hash_entry,
}
use sosp_paper19_ae.Thread.{handle_of}
use sosp_paper19_ae.HashIndex.{entry_size, key_at, value_at, put, get}
use sosp_paper19_ae.HashIndex.Chain.{Entry, Represents, get-lookup}
use sosp_paper19_ae.Alloc.{cxl_find_page, cxl_page_malloc}
use sosp_paper19_ae.HashIndex.Insert.{IsKept}
use sosp_paper19_ae.HashIndex.Put.{put-insert}
use sosp_paper19_ae.HashIndex.Update.{put-get}

abbrev object : ℕ
object = segments_area_start + 8192

abbrev link : ℕ
link = hash_entry 0 5

abbrev region : Mem
region = λ a.
    if a == link
    then object
    else if a == key_at object
    then 5
    else if a == value_at object
    then 7
    else 0

abbrev entries : List Entry
entries = record { offset = object; key = 5; value = 7 } ∷ []

entries-Represents : Represents region link entries
unfolding hash_entry
entries-Represents = (refl, omega arith, refl, refl, refl)

get-lookup_example : get 2 5 region ≡ ok (some 7) region
get-lookup_example = get-lookup 2 5 region entries (omega arith) entries-Represents

put-get_example :
    (m' : Mem) × (put 2 (handle_of 0 0) 5 9 region ≡ ok tt m') × (get 2 5 m' ≡ ok (some 9) m')
unfolding hash_entry
put-get_example =
    put-get 2 5 5 9 (handle_of 0 0) region entries (omega arith) (λ e. some-ne-none 7 e) refl
      (inl (omega arith), tt) (tt, tt) entries-Represents

-- The same thread has a free block of 48 bytes, and no entry of key 6.
abbrev page : ℕ
page = meta_page_at segments_area_start 1

abbrev empty_index : Mem
empty_index = λ a. if a == pages_at (tls_at 0) 4 then page else if a == page then object else 0

block-alloc :
    cxl_page_malloc 1
      (handle_of 0 0)
      (cxl_page_queue (tls_at 0) false entry_size)
      (cxl_find_page (cxl_page_queue (tls_at 0) false entry_size) empty_index)
      empty_index
    ≡ ok (page, object) empty_index
unfolding cxl_page_malloc cxl_find_page cxl_page_queue
block-alloc = refl

empty-Represents : Represents empty_index (hash_entry 0 6) []
unfolding hash_entry
empty-Represents = refl

link-IsKept : IsKept page object (hash_entry 0 6)
unfolding hash_entry
link-IsKept = record {
  upper = omega arith;
  beside = inl (omega arith);
  no_free = omega arith;
  no_counts = omega arith;
}

put-insert_example :
    (m' : Mem) × (put 1 (handle_of 0 0) 6 9 empty_index ≡ ok tt m')
    × Represents m' (hash_entry 0 6) (record { offset = object; key = 6; value = 9 } ∷ [])
put-insert_example =
    put-insert 0 0 1 6 9 page object (omega arith) empty_index empty_index [] (omega arith)
      link-IsKept tt (omega arith) refl block-alloc empty-Represents empty-Represents tt tt
