-- ===== src/Thread/Malloc.antt =====
-- `cxl_malloc` of src/cxl_shm.cpp on a thread that has no page yet.
use sosp_paper19_ae.Page.Blocks.{blocks}
use sosp_paper19_ae.Alloc.NewObject.{cxl_ref_alloc-new}
use sosp_paper19_ae.Alloc.NewRoot.{thread_base_ref_alloc-refill}
use sosp_paper19_ae.Alloc.{CxlRef, cxl_ref_alloc, thread_base_ref_alloc}
use sosp_paper19_ae.Segment.Claim.{Fits}
use sosp_paper19_ae.Thread.{cxl_malloc, handle_of}
use sosp_paper19_ae.Layout.Bins.{bin_block_size, cxl_page_queue_fits}
use sosp_paper19_ae.Ref.{root_ref_cnt}
use sosp_paper19_ae.Base.{
  ℕ, ◌+◌, ◌≤◌, ◌<◌, ◌≡◌, ◌∙◌, inl, inr, List, [], arith, ◌≢◌, sym, refl, ◌%◌, ne→==, ap, suc, ◌⊎◌,
  ◌*◌, ◌++◌, ◌^◌,
}
use sosp_paper19_ae.Memory.{Mem, u64, bits16, ok, fault, lo32}
use sosp_paper19_ae.Layout.{
  page_size, free_page_at, queue_block_size_at, max_thread, pages_at, tls_at, root_ref_size,
  segments_area_start, cxl_bin_size, pages_per_segment, sas_at, last_at, next_at, prev_at,
  cxlobj_size, root_flags_at, ref_info_at, embedded_ref_cnt_at, get_ref_cnt_from_info,
  get_lcid_from_info, segment_size, max_segment_num,
}
use sosp_paper19_ae.Layout.Pointers.{segment_at, page_at}
use sosp_paper19_ae.Handle.{sas_thread_id, Shm}
use sosp_paper19_ae.Thread.Reset.{init_block_size}
use sosp_paper19_ae.PageQueue.Chain.{Holds, IsPage}
use sosp_paper19_ae.PageQueue.Frame.{Holds-outside, free-IsNoLink, field-IsNoLink}
use sosp_paper19_ae.Segment.FreeQueue.{page_at-IsPage, page_range}
use sosp_paper19_ae.Page.Fresh.{Made}
use sosp_paper19_ae.Page.Generic.{unlogged, unlogged-other}
use sosp_paper19_ae.Alloc.Root.{IsRoot}

-- A thread that has no page: its queues are those that `thread_init` leaves, and no page of a
-- segment that is free has a free block.
pub record IsNew (m : Mem) (i : ℕ) : Type 0 where
  pub empty : (b : ℕ) → b < cxl_bin_size → m (pages_at (tls_at i) b) ≡ 0
  pub size_of :
      (b : ℕ)
      → b < cxl_bin_size
      → m (queue_block_size_at (pages_at (tls_at i) b)) ≡ init_block_size b
  pub no_free : Holds m (free_page_at (tls_at i)) []
  pub unused :
      (k j : ℕ)
      → k < max_segment_num
      → j < pages_per_segment
      → sas_thread_id m (sas_at k) ≡ 0
      → m (page_at k j) ≡ 0

-- The region once the root reference is made, seen from the object.
module _ (size i k : ℕ) (few : i < max_thread) (m m1 m2 : Mem) (ps : List ℕ) where
  abbrev p : ℕ
  p = page_at k 1

  abbrev area : ℕ
  area = segment_at k + page_size

  abbrev queue : ℕ
  queue = free_page_at (tls_at i)

  abbrev mu : Mem
  mu = unlogged size i 0 few (omega arith) m

  module _ (h : Made mu m1 queue (pages_at (tls_at i) 0) p area root_ref_size ps) {bs : List ℕ}
      (r : IsRoot m1 m2 p area bs) where
    root-low :
        (a : ℕ)
        → tls_at i + 512 ≤ a
        → a < segments_area_start
        → a ≢ pages_at (tls_at i) 0
        → a ≢ last_at (pages_at (tls_at i) 0)
        → a ≢ queue
        → a ≢ last_at queue
        → m2 a ≡ m a
    root-low a high low ne ne' ne'' ne3 =
        r.kept a (omega arith, omega arith, omega arith, omega arith)
        ∙ h.low a (omega arith) low ne ne' ne'' ne3
        ∙ unlogged-other size i 0 few (omega arith) m a (inr high)

    root-page : (j : ℕ) → 1 < j → j < pages_per_segment → m2 (page_at k j) ≡ m (page_at k j)
    root-page j lo hi =
        r.kept (page_at k j) (omega arith, omega arith, omega arith, omega arith)
        ∙ h.pages (page_at k j) (page_at-IsPage k j hi) (omega arith)
        ∙ unlogged-other size i 0 few (omega arith) m (page_at k j) (inr (omega arith))

    links_kept :
        (x : ℕ) → IsPage x → (m2 (next_at x) ≡ m1 (next_at x)) × (m2 (prev_at x) ≡ m1 (prev_at x))
    links_kept x is =
        let is_p = page_at-IsPage k 1 (omega arith) in
        let free = free-IsNoLink p is_p x is in
        let counts = field-IsNoLink p 16 is_p (inl (omega arith)) (omega arith) x is in
        (
          r.kept (next_at x) (
            omega (arith, is.within),
            omega (arith, is.within),
            (λ e. free.0 (sym e)),
            (λ e. counts.0 (sym e)),
          ),
          r.kept (prev_at x) (
            omega (arith, is.within),
            omega (arith, is.within),
            (λ e. free.1 (sym e)),
            (λ e. counts.1 (sym e)),
          ),
        )

    root-Holds : Holds m2 queue ps
    root-Holds =
        Holds-outside m1 m2 queue ps
          (r.kept queue (omega arith, omega arith, omega arith, omega arith))
          (r.kept (last_at queue) (omega arith, omega arith, omega arith, omega arith)) links_kept
          h.holds

-- The root reference `tbr` is the only reference to the object, and has one handle.
pub record IsAllocated (m : Mem) (tbr object client embedded : ℕ) : Type 0 where
  pub leads : m tbr ≡ object
  pub handles : root_ref_cnt m tbr ≡ 1
  pub count : get_ref_cnt_from_info (m (ref_info_at object)) ≡ 1
  pub owner : get_lcid_from_info (m (ref_info_at object)) ≡ client
  pub embedded_cnt : m (embedded_ref_cnt_at object) ≡ embedded

handles-kept :
    (m m' : Mem) (tbr : ℕ)
    → m' (root_flags_at tbr) ≡ m (root_flags_at tbr)
    → root_ref_cnt m' tbr ≡ root_ref_cnt m tbr
unfolding root_ref_cnt
handles-kept m m' tbr e = ap bits16 e

malloc-run :
    (s : Shm) (m m2 m' : Mem) (r : CxlRef) (fuel tbr data_size embedded : ℕ)
    → thread_base_ref_alloc fuel s m ≡ ok tbr m2
    → cxl_ref_alloc fuel s tbr (data_size + cxlobj_size) embedded m2 ≡ ok r m'
    → data_size + cxlobj_size ≤ 1024
    → cxl_malloc fuel s data_size embedded m ≡ ok r m'
unfolding cxl_malloc
malloc-run s m m2 m' r fuel tbr data_size embedded root run small =
    let e : u64 (data_size + cxlobj_size) ≡ data_size + cxlobj_size = omega arith in
    rw (root, e) run

malloc-fault :
    (s : Shm) (m : Mem) (fuel data_size embedded : ℕ)
    → thread_base_ref_alloc fuel s m ≡ fault
    → cxl_malloc fuel s data_size embedded m ≡ fault
unfolding cxl_malloc
malloc-fault s m fuel data_size embedded root = rw root refl

module _ (size i : ℕ) (few : i < max_thread)
    (bounded : size ≤ segments_area_start + max_segment_num * segment_size) (m : Mem)
    (new : IsNew m i) (fuel data_size embedded : ℕ) (small : data_size + cxlobj_size ≤ 1024) where
  abbrev s : Shm
  s = handle_of size i

  abbrev root :
      ((thread_base_ref_alloc (suc fuel) s m ≡ fault)
        × ((j : ℕ) → Fits s j → sas_thread_id m (sas_at j) ≢ 0))
      ⊎ ((k : ℕ) × Fits s k
          × (sas_thread_id m (sas_at k) ≡ 0)
          × ((j : ℕ) → j < k → sas_thread_id m (sas_at j) ≢ 0)
          × ((m1 m2 : Mem) × (thread_base_ref_alloc (suc fuel) s m
                ≡ ok (segment_at k + page_size) m2)
              × (sas_thread_id m2 (sas_at k) ≡ i + 1)
              × Made
                  (unlogged size i 0 few (omega arith) m)
                  m1
                  (free_page_at (tls_at i))
                  (pages_at (tls_at i) 0)
                  (page_at k 1)
                  (segment_at k + page_size)
                  root_ref_size
                  (page_range 1022 k 2 ++ [])
              × IsRoot m1 m2
                  (page_at k 1)
                  (segment_at k + page_size)
                  (blocks 4095 root_ref_size (segment_at k + page_size + root_ref_size))))
  root =
      thread_base_ref_alloc-refill size i few bounded m fuel (new.empty 0 (omega arith)) new.no_free
        (new.size_of 0 (omega arith)) (λ k lt f. new.unused k 1 lt (omega arith) f)

  module _ (k : ℕ) where
    abbrev root_at : ℕ
    root_at = segment_at k + page_size

    abbrev object_at : ℕ
    object_at = segment_at k + 2 * page_size

    abbrev result : CxlRef
    result = record { tbr = root_at; value = object_at + cxlobj_size }

    abbrev others : List ℕ
    others = page_range 1022 k 2 ++ []

    module _ (m1 m2 : Mem) (lt : k < max_segment_num) (free : sas_thread_id m (sas_at k) ≡ 0)
        (h : Made
          (unlogged size i 0 few (omega arith) m)
          m1
          (free_page_at (tls_at i))
          (pages_at (tls_at i) 0)
          (page_at k 1)
          root_at
          root_ref_size
          others)
        {bs : List ℕ} (r : IsRoot m1 m2 (page_at k 1) root_at bs) where
      object_behind :
          (m' : Mem) × (cxl_ref_alloc (suc fuel) s root_at (data_size + cxlobj_size) embedded m2
            ≡ ok result m')
          × ((a : ℕ) → a < 2 ^ 17 → m' a ≡ m2 a)
          × IsAllocated m' root_at object_at (i + 1) embedded
      object_behind =
          let (b, at, lo, hi, holds, tight) =
            cxl_page_queue_fits (tls_at i) (data_size + cxlobj_size) (omega arith) small in
          let size_of : init_block_size b ≡ bin_block_size b =
            rw (ne→== b 0 (omega arith), ne→== b 1 (omega arith)) refl in
          let low = root-low size i k few m m1 m2 others h r in
          let (m3, m', run, before, h', flags, o) =
            cxl_ref_alloc-new size i b (bin_block_size b) k 2 root_at few hi lo (omega arith)
              (omega arith) (omega arith) (omega arith) (omega arith) (omega arith) m2 fuel
              (data_size + cxlobj_size) embedded (page_range 1021 k 3 ++ []) at
              (low (pages_at (tls_at i) b) (omega arith) (omega arith) (omega arith) (omega arith)
                  (omega arith) (omega arith)
                ∙ new.empty b hi)
              (root-Holds size i k few m m1 m2 others h r)
              (low (queue_block_size_at (pages_at (tls_at i) b)) (omega arith) (omega arith)
                  (omega arith) (omega arith) (omega arith) (omega arith)
                ∙ new.size_of b hi
                ∙ size_of)
              (root-page size i k few m m1 m2 others h r 2 (omega arith) (omega arith)
                ∙ new.unused k 2 lt (omega arith) free) in
          (
            m',
            run,
            before,
            record {
              leads = o.object;
              handles =
                  o.handles
                  ∙ ap (λ n. (n + 1) % 2 ^ 16) (handles-kept m2 m3 root_at flags ∙ r.count);
              count = o.count;
              owner = o.client;
              embedded_cnt = o.embedded_cnt;
            },
          )

  -- The first `cxl_malloc` of a thread, of at most 1000 bytes: either every segment that fits into the
  -- region belongs to a thread, and the call faults on a NULL page, or it claims the first segment that
  -- is free, of which the thread becomes the owner, and returns a handle. The handle's root reference is the first block of page 1 of that
  -- segment, the object the first block of page 2. The root reference leads to the object and counts
  -- one handle, the object counts one reference, under the client id of the thread, and stores the
  -- number of embedded references. The region has room for at most 4096 segments.
  pub cxl_malloc-new :
      ((cxl_malloc (suc fuel) s data_size embedded m ≡ fault)
        × ((j : ℕ) → Fits s j → sas_thread_id m (sas_at j) ≢ 0))
      ⊎ ((k : ℕ) × Fits s k
          × (sas_thread_id m (sas_at k) ≡ 0)
          × ((j : ℕ) → j < k → sas_thread_id m (sas_at j) ≢ 0)
          × ((m' : Mem) × (cxl_malloc (suc fuel) s data_size embedded m
                ≡ ok
                    (record {
                      tbr = segment_at k + page_size;
                      value = segment_at k + 2 * page_size + cxlobj_size;
                    })
                    m')
              × (sas_thread_id m' (sas_at k) ≡ i + 1)
              × IsAllocated m'
                  (segment_at k + page_size)
                  (segment_at k + 2 * page_size)
                  (i + 1)
                  embedded))
  unfolding sas_thread_id
  cxl_malloc-new = elim root [
    | inl r ↦ inl (malloc-fault s m (suc fuel) data_size embedded r.0, r.1)
    | inr (k, f, free, taken, (m1, m2, run, owner, h, r)) ↦
        let (m', run', before, a) = object_behind k m1 m2 (omega arith) free h r in
        let made : CxlRef = result k in
        inr (
          k,
          f,
          free,
          taken,
          (
            m',
            malloc-run s m m2 m' made (suc fuel) (root_at k) data_size embedded run run' small,
            ap lo32 (before (sas_at k) (omega arith)) ∙ owner,
            a,
          ),
        )
  ]
