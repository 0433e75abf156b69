-- ===== src/Handle.antt =====
-- The private state of a `cxl_shm` (include/cxlmalloc.h), and the counters of pages and segments.
use sosp_paper19_ae.Base.{ℕ, ◌+◌, ◌-◌, ◌^◌}
use sosp_paper19_ae.Memory.{
  Mem, store, u32, lo32, hi32, with_lo32, with_hi32, bits0, with_bits0, load32, store32,
}
use sosp_paper19_ae.Layout.{counts_at, sas_state_at, sas_thread_free_at, era}

-- The fields of `cxl_shm` other than `start`, which is where the offsets count from, and `shm_id`.
pub record Shm : Type 0 where
  pub size : ℕ
  pub tls_offset : ℕ
  pub thread_id : ℕ

-- `*era(thread_id, thread_id)`
unfoldable pub current_era : Shm → Mem → ℕ
unfolding load32 era
current_era s m = load32 m (era s.thread_id s.thread_id)

-- `*era(thread_id, thread_id) += 1`
unfoldable pub advance_era : Shm → Mem → Mem
unfolding load32 store32 era
advance_era s m =
    store32 m (era s.thread_id s.thread_id) (u32 (load32 m (era s.thread_id s.thread_id) + 1))

-- `page->used`, `page->block_size`
unfoldable pub page_used : Mem → ℕ → ℕ
page_used m page = hi32 (m (counts_at page))

unfoldable pub page_block_size : Mem → ℕ → ℕ
page_block_size m page = lo32 (m (counts_at page))

unfoldable pub set_page_used : ℕ → ℕ → Mem → Mem
unfolding store
set_page_used page used m = store m (counts_at page) (with_hi32 (m (counts_at page)) used)

unfoldable pub set_page_block_size : ℕ → ℕ → Mem → Mem
unfolding store
set_page_block_size page size m = store m (counts_at page) (with_lo32 (m (counts_at page)) size)

-- `page->used ++` and `page->used --`
unfoldable pub inc_page_used : ℕ → Mem → Mem
unfolding page_used set_page_used
inc_page_used page m = set_page_used page (u32 (page_used m page + 1)) m

unfoldable pub dec_page_used : ℕ → Mem → Mem
unfolding page_used set_page_used
dec_page_used page m = set_page_used page (u32 (page_used m page + 2 ^ 32 - 1)) m

-- `segment->used`, `segment->thread_id`
unfoldable pub segment_used : Mem → ℕ → ℕ
segment_used m segment = hi32 (m segment)

unfoldable pub segment_thread_id : Mem → ℕ → ℕ
segment_thread_id m segment = bits0 (m segment)

unfoldable pub set_segment_used : ℕ → ℕ → Mem → Mem
unfolding store
set_segment_used segment used m = store m segment (with_hi32 (m segment) used)

unfoldable pub set_segment_thread_id : ℕ → ℕ → Mem → Mem
unfolding store
set_segment_thread_id segment id m = store m segment (with_bits0 (m segment) id)

-- `sas->thread_id`
unfoldable pub sas_thread_id : Mem → ℕ → ℕ
sas_thread_id m sas = lo32 (m sas)

unfoldable pub set_sas_thread_id : ℕ → ℕ → Mem → Mem
unfolding store
set_sas_thread_id sas id m = store m sas (with_lo32 (m sas) id)

-- `sas->info = {state, thread_free}`
unfoldable pub set_sas_info : ℕ → ℕ → ℕ → Mem → Mem
unfolding store
set_sas_info sas state thread_free m =
    store (store m (sas_state_at sas) state) (sas_thread_free_at sas) thread_free
