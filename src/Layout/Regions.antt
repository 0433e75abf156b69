-- ===== src/Layout/Regions.antt =====
-- The areas of the region: allocation states, eras, thread-local states, hash tables, segments.
use sosp_paper19_ae.Base.{ℕ, ◌+◌, ◌≡◌, ◌≤◌, ◌<◌, arith}
use sosp_paper19_ae.Layout.{
  era_array_start, thread_local_vec_start, hash_table_start, segments_area_start, max_thread,
  max_segment_num, sas_at, sas_size, tls_at, tls_size, era, hash_entry,
}

-- Each area lies before the next: the allocation states of all segments, the eras of threads 1 to
-- 1024, the thread-local states of 1024 threads, and 64 hash tables.
pub areas_in_order :
    (segment x y thread partition key : ℕ)
    → segment < max_segment_num
    → 1 ≤ x
    → x ≤ max_thread
    → 1 ≤ y
    → y ≤ max_thread
    → thread < max_thread
    → partition < 64
    → (sas_at segment + sas_size ≤ era_array_start)
      × (era_array_start ≤ era x y)
      × (era x y + 4 ≤ thread_local_vec_start)
      × (tls_at thread + tls_size ≤ hash_table_start)
      × (hash_table_start ≤ hash_entry partition key)
      × (hash_entry partition key + 8 ≤ segments_area_start)
unfolding era hash_entry
areas_in_order segment x y thread partition key a b c d e f g = omega arith

-- Two eras of the array stand at the same place only if they are the same.
pub era-injective :
    (x y x' y' : ℕ)
    → 1 ≤ x
    → 1 ≤ x'
    → 1 ≤ y
    → y ≤ max_thread
    → 1 ≤ y'
    → y' ≤ max_thread
    → era x y ≡ era x' y'
    → (x ≡ x') × (y ≡ y')
unfolding era
era-injective x y x' y' a b c d e f h = omega arith

-- From partition 64 on, which is thread 65, a hash table stands in the area of the segments.
pub hash_entry_overlaps :
    (partition key : ℕ) → 64 ≤ partition → segments_area_start ≤ hash_entry partition key
unfolding hash_entry
hash_entry_overlaps partition key h = omega arith
