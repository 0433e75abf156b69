-- ===== src/Alloc/RoundTrip.antt =====
-- A block freed by another thread, `cxl_free` of src/alloc.cpp, and collected by its owner,
-- `cxl_thread_free_collect` of src/page.cpp.
use mathlib.Core.Path.{subst}
use sosp_paper19_ae.Base.{
  ℕ, suc, ◌+◌, ◌*◌, ◌%◌, ◌^◌, ◌<◌, ◌≡◌, ◌≢◌, refl, ap, ◌∙◌, inl, inr, List, ◌∷◌, length, arith, All,
  All-map, ◌∉◌, Bool, sym, eq→==, AreDistinct,
}
use sosp_paper19_ae.Memory.{Mem, ok, and_then, hi32}
use sosp_paper19_ae.Layout.{
  segment_size, segments_area_start, local_free_at, cxl_ptr_page, cxl_ptr_segment,
  sas_thread_free_at, sas_state_at, sas_of_segment, potential_leaking, max_segment_num,
  cxl_segment_page_of, cxl_page_size,
}
use sosp_paper19_ae.Handle.{Shm, page_used, segment_thread_id}
use sosp_paper19_ae.Page.{cxl_thread_free_collect}
use sosp_paper19_ae.Page.Blocks.{Links, Links-same}
use sosp_paper19_ae.Page.Return.{IsBlock, returned, returned_cnt, block-IsPage}
use sosp_paper19_ae.Page.Collect.{cxl_thread_free_collect_returns}
use sosp_paper19_ae.Alloc.{cxl_free}
use sosp_paper19_ae.Alloc.Free.{IsOutside, page-lt}
use sosp_paper19_ae.Alloc.FreeRemote.{cxl_free-remote}

module _ (s : Shm) (special : Bool) (b : ℕ) (is : IsBlock b) (m : Mem) (xs ls : List ℕ)
    (inside : b < segments_area_start + max_segment_num * segment_size) where
  abbrev p : ℕ
  p = cxl_ptr_page b

  abbrev sas : ℕ
  sas = sas_of_segment (cxl_ptr_segment b)

  abbrev Spare : ℕ → Type 0
  Spare a = (a ≢ b) × IsBlock a × IsOutside s special b is m a

  same_segment : sas_of_segment (cxl_ptr_segment p) ≡ sas
  unfolding cxl_ptr_page cxl_ptr_segment sas_of_segment cxl_segment_page_of
  same_segment = omega arith

  page-inside : p < segments_area_start + max_segment_num * segment_size
  page-inside = omega (arith, page-lt b 0 is (omega arith))

  to_own_page :
      (returned p (b ∷ xs) ls ≡ returned p xs (b ∷ ls))
      × (returned_cnt p (b ∷ xs) ≡ suc (returned_cnt p xs))
  to_own_page = (rw (eq→== p p refl) refl, rw (eq→== p p refl) (omega arith))

  sas-low : sas_thread_free_at sas < segments_area_start
  unfolding sas_of_segment cxl_ptr_segment
  sas-low = omega arith

  page-kept :
      (m1 : Mem)
      → ((a : ℕ) → IsOutside s special b is m a → a ≢ b → a ≢ sas_thread_free_at sas → m1 a ≡ m a)
      → (d : ℕ) → d < cxl_page_size
      → m1 (p + d) ≡ m (p + d)
  page-kept m1 kept d lt =
      let before = page-lt b d is lt in
      kept (p + d) (inl before) (omega (arith, before))
        (omega (arith, sas-low, (block-IsPage b is).high))

  -- A block that another thread frees comes back to its page: once that thread has called `cxl_free`
  -- and the owner `cxl_thread_free_collect`, the `local_free` list of the page is the block and what the list
  -- held before, behind those blocks of the page that were in the list of the segment, and the page counts
  -- them and the block less in use. The segment must not be marked as leaking, the fuel must exceed the
  -- blocks in its list, and neither list may hold a block twice, the block itself, or what `cxl_free`
  -- clears.
  pub cxl_free-collect :
      (fuel : ℕ)
      → segment_thread_id m (cxl_ptr_segment b) ≢ s.thread_id
      → m (sas_state_at sas) ≢ potential_leaking
      → Links m (m (sas_thread_free_at sas)) xs 0
      → Links m (m (local_free_at p)) ls 0
      → All Spare xs
      → All Spare ls
      → AreDistinct xs
      → All (λ x. x ∉ ls) xs
      → suc (length xs) < fuel
      → (m' : Mem) × (and_then (cxl_free s special b m) (λ _. cxl_thread_free_collect fuel p)
          ≡ ok tt m')
        × Links m' (m' (local_free_at p)) (returned p xs (b ∷ ls)) 0
        × ((page_used m' p + suc (returned_cnt p xs)) % 2 ^ 32 ≡ page_used m p)
  unfolding page_used
  cxl_free-collect fuel other usable h h' spare spare' apart out enough =
      elim (cxl_free-remote s special b is m inside xs other h
        (All-map Spare (λ a. (a ≢ b) × IsBlock a) xs (λ a k. (k.0, k.1)) spare)
        (All-map Spare (IsOutside s special b is m) xs (λ a k. k.2) spare)) [
          | inr (leak, _) ↦ absurd (usable leak)
          | inl (_, (m1, run, list, kept)) ↦
              let blocks_of = All-map Spare IsBlock in
              let (m', run', empty, each) =
                cxl_thread_free_collect_returns p m1 fuel (b ∷ xs) page-inside enough
                  (is, blocks_of xs (λ a k. k.1) spare)
                  (All-map Spare (λ a. b ≢ a) xs (λ a k e. k.0 (sym e)) spare, apart)
                  (subst (λ z. Links m1 (m1 (sas_thread_free_at z)) (b ∷ xs) 0) (sym same_segment)
                    list) in
              let (links, used) =
                each p ls (block-IsPage b is) (blocks_of ls (λ a k. k.1) spare')
                  (All-map Spare (λ a. b ≢ a) ls (λ a k e. k.0 (sym e)) spare', out)
                  (rw (page-kept m1 kept 8 (omega arith)) (
                    Links-same m m1 Spare (m (local_free_at p)) ls 0
                      (λ a k. kept a k.2 k.0 (omega (arith, sas-low, k.1.0))) spare' h')) in
              (
                m',
                rw run run',
                subst (λ l. Links m' (m' (local_free_at p)) l 0) to_own_page.0 links,
                rw (← to_own_page.1) used ∙ ap hi32 (page-kept m1 kept 16 (omega arith)),
              )
        ]
