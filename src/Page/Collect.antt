-- ===== src/Page/Collect.antt =====
-- `cxl_thread_free_collect` of src/page.cpp: blocks that other threads have freed go back to their
-- pages.
use sosp_paper19_ae.PageQueue.Chain.{IsPage}
use sosp_paper19_ae.Base.{
  ℕ, ◌+◌, ◌%◌, ◌^◌, ◌<◌, ◌≡◌, ◌≢◌, refl, List, [], ◌∷◌, length, arith, All, ◌∉◌, ne→==, ◌∙◌, ap,
  ◌*◌, AreDistinct,
}
use sosp_paper19_ae.Memory.{Mem, store, ok, store_self, store_other, hi32}
use sosp_paper19_ae.Layout.{
  segment_size, segments_area_start, local_free_at, counts_at, cxl_ptr_segment, sas_of_segment,
  sas_thread_free_at, max_segment_num,
}
use sosp_paper19_ae.Handle.{page_used}
use sosp_paper19_ae.Page.{cxl_thread_free_collect}
use sosp_paper19_ae.Page.Blocks.{Links, Links-same}
use sosp_paper19_ae.Page.Return.{
  IsBlock, return_all, returned, returned_cnt, return_blocks_lem, return_all-Links, return_all-used,
  return_all-other,
}

module _ (page : ℕ) (m : Mem) where
  abbrev sas : ℕ
  sas = sas_of_segment (cxl_ptr_segment page)

  abbrev emptied : Mem
  emptied = store m (sas_thread_free_at sas) 0

  sas_low :
      page < segments_area_start + max_segment_num * segment_size
      → sas_thread_free_at sas < segments_area_start
  unfolding sas_of_segment cxl_ptr_segment
  sas_low inside = omega arith

  emptied-other : (a : ℕ) → a ≢ sas_thread_free_at sas → emptied a ≡ m a
  emptied-other a = store_other m (sas_thread_free_at sas) 0 a

  emptied-Links :
      (f : ℕ) (ls : List ℕ)
      → sas_thread_free_at sas < segments_area_start
      → All IsBlock ls
      → Links m f ls 0
      → Links emptied f ls 0
  emptied-Links f ls low is h =
      Links-same m emptied IsBlock f ls 0 (λ a k. emptied-other a (omega (arith, low, k.0))) is h

  collect-none :
      (fuel : ℕ) → m (sas_thread_free_at sas) ≡ 0 → cxl_thread_free_collect fuel page m ≡ ok tt m
  unfolding cxl_thread_free_collect
  collect-none fuel e = rw e refl

  collect-some :
      (fuel : ℕ) (xs : List ℕ)
      → sas_thread_free_at sas < segments_area_start
      → length xs < fuel
      → All IsBlock xs
      → AreDistinct xs
      → Links m (m (sas_thread_free_at sas)) xs 0
      → m (sas_thread_free_at sas) ≢ 0
      → cxl_thread_free_collect fuel page m ≡ ok tt (return_all xs emptied)
  unfolding cxl_thread_free_collect
  collect-some fuel xs low lt is apart h ne = rw (ne→== (m (sas_thread_free_at sas)) 0 ne) (
      return_blocks_lem fuel xs (m (sas_thread_free_at sas)) emptied lt is apart
        (emptied-Links (m (sas_thread_free_at sas)) xs low is h))

  -- `cxl_thread_free_collect` ends when its fuel exceeds the number of blocks in the list of the
  -- segment, and empties that list: each block is put in front of the `local_free` list of its own page,
  -- which it leads through although the loop overwrites the links, and each page counts as many blocks
  -- less in use. No block may be in the list twice, or in the `local_free` list already.
  pub cxl_thread_free_collect_returns :
      (fuel : ℕ) (xs : List ℕ)
      → page < segments_area_start + max_segment_num * segment_size
      → length xs < fuel
      → All IsBlock xs
      → AreDistinct xs
      → Links m (m (sas_thread_free_at sas)) xs 0
      → (m' : Mem) × (cxl_thread_free_collect fuel page m ≡ ok tt m')
        × (m' (sas_thread_free_at sas) ≡ 0)
        × ((p : ℕ) (ls : List ℕ)
            → IsPage p
            → All IsBlock ls
            → All (λ x. x ∉ ls) xs
            → Links m (m (local_free_at p)) ls 0
            → Links m' (m' (local_free_at p)) (returned p xs ls) 0
              × ((page_used m' p + returned_cnt p xs) % 2 ^ 32 ≡ page_used m p))
  unfolding page_used
  cxl_thread_free_collect_returns fuel [] inside lt is apart h =
      (m, collect-none fuel h, h, λ p ls is_p is' out k. (k, return_all-used p is_p [] m tt))
  cxl_thread_free_collect_returns fuel (x ∷ xs) inside lt is apart h =
      let low = sas_low inside in
      (
        return_all (x ∷ xs) emptied,
        collect-some fuel (x ∷ xs) low lt is apart h (rw h.0 (omega (arith, is.0.0))),
        return_all-other (x ∷ xs) (sas_thread_free_at sas) emptied low is
            ∙ store_self m (sas_thread_free_at sas) 0,
        λ p ls is_p is' out k. (
          return_all-Links p is_p (x ∷ xs) ls emptied is is' apart out (
              rw (emptied-other (local_free_at p) (omega (arith, low, is_p.high)))
                (emptied-Links (m (local_free_at p)) ls low is' k)),
          return_all-used p is_p (x ∷ xs) emptied is
              ∙ ap hi32 (emptied-other (counts_at p) (omega (arith, low, is_p.high))),
        ),
      )
