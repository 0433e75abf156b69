-- ===== src/Ref/Last.antt =====
-- The last handle of a root reference, destroyed while the object has other references:
-- `~CXLRef_s` of src/cxl_ref.cpp down to `unlink_reference` and `cxl_free`.
use sosp_paper19_ae.Page.Blocks.{Links, Links-same}
use sosp_paper19_ae.Alloc.Free.{IsOutside, cxl_free-local, page-lt, segment-lt}
use sosp_paper19_ae.Ref.Count.{dec_root_ref_cnt-cnt}
use sosp_paper19_ae.Base.{
  ℕ, suc, ◌+◌, ◌-◌, ◌^◌, ◌≤◌, ◌<◌, ◌≡◌, ◌≢◌, refl, ap, ◌∙◌, ◌⊎◌, arith, ne→==, eq→==, true, ltb,
  List, All-map, sym, ◌∷◌, All,
}
use sosp_paper19_ae.Memory.{Mem, store, ok, u64, hi32, lo32, bits0}
use sosp_paper19_ae.Layout.{
  hash_table_start, max_thread, cxl_ptr_page, cxl_ptr_segment, root_ref_size, root_flags_at,
  ref_info_at, get_ref_cnt_from_info, pack_ref_info, cxl_page_size, local_free_at,
}
use sosp_paper19_ae.Layout.RefInfo.{pack_ref_info_fields}
use sosp_paper19_ae.Handle.{Shm, page_used, page_block_size, segment_thread_id}
use sosp_paper19_ae.Thread.{handle_of}
use sosp_paper19_ae.Page.Return.{IsBlock, block_ne}
use sosp_paper19_ae.Alloc.{cxl_free, cleared_size}
use sosp_paper19_ae.Redo.Logged.{current_era-lt, ref_cnt-lt}
use sosp_paper19_ae.RefCount.{others_left, drop_reference, unlink_reference, test_free}
use sosp_paper19_ae.RefCount.Frame.{HasClient}
use sosp_paper19_ae.RefCount.Count.{drop_reference-high, unlink_era}
use sosp_paper19_ae.Ref.{root_ref_cnt, dec_root_ref_cnt, clear_in_use, destroy_ref, null_ref}

-- A root reference at `t` with one handle leads to an object that is counted more than once.
pub record IsLast (m : Mem) (client t object : ℕ) : Type 0 where
  pub block : IsBlock t
  pub one_handle : root_ref_cnt m t ≡ 1
  pub leads : m t ≡ object
  pub not_null : object ≢ 0
  pub object_block : IsBlock (ref_info_at object)
  pub apart : (ref_info_at object < t) ⊎ (t + root_ref_size ≤ ref_info_at object)
  pub counted : HasClient (m (ref_info_at object))
  pub shared : 1 < get_ref_cnt_from_info (m (ref_info_at object))
  pub own : segment_thread_id m (cxl_ptr_segment t) ≡ client
  pub in_page : page_block_size m (cxl_ptr_page t) ≡ root_ref_size
  pub others_used : 1 < page_used m (cxl_ptr_page t)

module _ (size i : ℕ) (few : i < max_thread) (t object : ℕ) (m : Mem)
    (h : IsLast m (i + 1) t object) where
  abbrev s : Shm
  s = handle_of size i

  abbrev p : ℕ
  p = cxl_ptr_page t

  abbrev counted_off : Mem
  counted_off = dec_root_ref_cnt t m

  counted_off-other : (a : ℕ) → a ≢ root_flags_at t → counted_off a ≡ m a
  unfolding dec_root_ref_cnt store
  counted_off-other a ne = rw (ne→== a (root_flags_at t) ne) refl

  same_info : counted_off (ref_info_at object) ≡ m (ref_info_at object)
  same_info = counted_off-other (ref_info_at object) (ground (arith, h.apart))

  client : HasClient (counted_off (ref_info_at object))
  client = rw same_info h.counted

  still_counted : 1 ≤ get_ref_cnt_from_info (counted_off (ref_info_at object))
  still_counted = rw same_info (omega (arith, h.shared))

  abbrev cnt : ℕ
  cnt = get_ref_cnt_from_info (m (ref_info_at object))

  abbrev unlinked : Mem
  unlinked = drop_reference s t object counted_off

  unlinked-other :
      (a : ℕ)
      → hash_table_start ≤ a
      → a ≢ t
      → a ≢ root_flags_at t
      → a ≢ ref_info_at object
      → unlinked a ≡ m a
  unlinked-other a high ne ne' ne'' =
      drop_reference-high size i few t object counted_off client still_counted a high
      ∙ rw (ne→== a t ne, ne→== a (ref_info_at object) ne'') (counted_off-other a ne')

  unlinked-word :
      unlinked (ref_info_at object)
      ≡ pack_ref_info (i + 1) (cnt - 1) (unlink_era size i few t object counted_off client)
  unlinked-word =
      drop_reference-high size i few t object counted_off client still_counted (ref_info_at object)
        (omega (arith, h.object_block.0))
      ∙ rw
          (
            ne→== (ref_info_at object) t (ground (arith, h.apart)),
            eq→== (ref_info_at object) (ref_info_at object) refl,
            same_info,
          )
          refl

  unlinked-info : get_ref_cnt_from_info (unlinked (ref_info_at object)) + 1 ≡ cnt
  unlinked-info =
      ap (λ w. get_ref_cnt_from_info w + 1) unlinked-word
      ∙ ap (λ n. n + 1)
          (pack_ref_info_fields (i + 1) (cnt - 1)
            (unlink_era size i few t object counted_off client) (omega arith)
            (omega (arith, ref_cnt-lt size i few (m (ref_info_at object))))
            (current_era-lt size i few _)).1
      ∙ omega (arith, h.shared)

  unlink-run : unlink_reference s t object counted_off ≡ ok tt unlinked
  unfolding unlink_reference others_left
  unlink-run =
      rw same_info (ground (arith, h.shared, ref_cnt-lt size i few (m (ref_info_at object))))

  abbrev cleared_flag : Mem
  cleared_flag = clear_in_use t unlinked

  cleared_flag-other : (a : ℕ) → a ≢ root_flags_at t → cleared_flag a ≡ unlinked a
  unfolding clear_in_use store
  cleared_flag-other a ne = rw (ne→== a (root_flags_at t) ne) refl

  others : ltb 0 (u64 (cnt + 2 ^ 64 - 1)) ≡ true
  others = ground (arith, h.shared, ref_cnt-lt size i few (m (ref_info_at object)))

  no_handle : root_ref_cnt counted_off t ≡ 0
  no_handle = dec_root_ref_cnt-cnt t m (omega (arith, h.one_handle)) ∙ omega (arith, h.one_handle)

  test_free-run : (rounds fuel : ℕ) → test_free rounds (suc fuel) s t counted_off ≡ ok tt unlinked
  unfolding test_free others_left
  test_free-run rounds fuel =
      rw (counted_off-other t (omega arith) ∙ h.leads, ne→== object 0 h.not_null, same_info, others)
        unlink-run

  destroy-run :
      (fuel : ℕ) (m' : Mem) (value : ℕ)
      → cxl_free s true t cleared_flag ≡ ok tt m'
      → destroy_ref (suc fuel) s (record { tbr = t; value = value }) m ≡ ok null_ref m'
  unfolding destroy_ref
  destroy-run fuel m' value run =
      rw (ne→== t 0 (omega (arith, h.block.0)), no_handle, test_free-run (suc fuel) fuel, run) refl

  kept :
      (a : ℕ)
      → hash_table_start ≤ a
      → a ≢ t
      → a ≢ root_flags_at t
      → a ≢ ref_info_at object
      → cleared_flag a ≡ m a
  kept a high ne ne' ne'' = cleared_flag-other a ne' ∙ unlinked-other a high ne ne' ne''

  kept-page : (d : ℕ) → d < cxl_page_size → cleared_flag (p + d) ≡ m (p + d)
  kept-page d lt =
      let before = page-lt t d h.block lt in
      let low = segment-lt t h.block in
      kept (p + d) (omega (arith, low)) (omega (arith, before)) (omega (arith, before))
        (λ e. block_ne (ref_info_at object) t d h.object_block h.block lt (sym e))

  kept-owner : segment_thread_id cleared_flag (cxl_ptr_segment t) ≡ i + 1
  unfolding segment_thread_id cxl_ptr_segment
  kept-owner =
      let low = segment-lt t h.block in
      let before = page-lt t 0 h.block (omega arith) in
      ap bits0 (
        kept (cxl_ptr_segment t) (omega (arith, low)) (omega (arith, low, before))
          (omega (arith, low, before)) (omega (arith, h.object_block)))
      ∙ h.own

  kept-used : page_used cleared_flag p ≡ page_used m p
  unfolding page_used
  kept-used = ap hi32 (kept-page 16 (omega arith))

  kept-size : page_block_size cleared_flag p ≡ root_ref_size
  unfolding page_block_size
  kept-size = ap lo32 (kept-page 16 (omega arith)) ∙ h.in_page

  -- A block that the end of the root reference does not touch.
  abbrev pub Spare : ℕ → Type 0
  Spare a = IsBlock a × ((a < t) ⊎ (t + root_ref_size ≤ a)) × (a ≢ ref_info_at object)

  outside : (a : ℕ) → (a < t) ⊎ (t + root_ref_size ≤ a) → IsOutside s true t h.block cleared_flag a
  unfolding cleared_size
  outside a out = rw kept-size out

  -- When the last handle of a root reference is destroyed and the object has other references, the
  -- count of the object falls by one, the block of the root reference is in front of the `local_free`
  -- list of its page, the page counts one less in use, and the handle is NULL. The root reference must
  -- lie on a page of the thread that has another block in use, and the list must not hold it.
  pub destroy_ref-last :
      (fuel value : ℕ) (ls : List ℕ)
      → Links m (m (local_free_at p)) ls 0
      → All Spare ls
      → (m' : Mem) × (destroy_ref (suc fuel) s (record { tbr = t; value = value }) m
          ≡ ok null_ref m')
        × (get_ref_cnt_from_info (m' (ref_info_at object)) + 1 ≡ cnt)
        × Links m' (m' (local_free_at p)) (t ∷ ls) 0
        × (page_used m' p + 1 ≡ page_used m p)
  destroy_ref-last fuel value ls list spare =
      let (m', run, links, used, frame) =
        cxl_free-local s true t h.block cleared_flag ls kept-owner (rw kept-used h.others_used)
          (rw (kept-page 8 (omega arith)) (
            Links-same m cleared_flag Spare (m (local_free_at p)) ls 0
              (λ a k. kept a (omega (arith, k.0.0)) (ground (arith, k.1)) (ground (arith, k.1)) k.2)
              spare list))
          (All-map Spare (λ a. (a ≢ t) × IsBlock a) ls (λ a k. (ground (arith, k.1), k.0)) spare)
          (All-map Spare (IsOutside s true t h.block cleared_flag) ls (λ a k. outside a k.1)
            spare) in
      (
        m',
        destroy-run fuel m' value run,
        ap (λ w. get_ref_cnt_from_info w + 1)
              (frame (ref_info_at object) (outside (ref_info_at object) h.apart)
                  (ground (arith, h.apart))
                  (block_ne (ref_info_at object) t 8 h.object_block h.block (omega arith))
                  (block_ne (ref_info_at object) t 16 h.object_block h.block (omega arith))
                ∙ cleared_flag-other (ref_info_at object) (ground (arith, h.apart)))
            ∙ unlinked-info,
        links,
        used ∙ kept-used,
      )
