-- ===== src/Layout/Bins.antt =====
-- Size classes: `cxl_thread_local_state_s::cxl_page_queue` of src/cxl_shm.cpp.
use sosp_paper19_ae.Base.{ℕ, ◌+◌, ◌-◌, ◌*◌, ◌/◌, ◌≡◌, ◌≤◌, ◌<◌, refl, true, false, arith}
use sosp_paper19_ae.Layout.{
  cxl_bin_size, message_queue_size, root_ref_size, pages_at, free_page_at, cxl_page_queue,
}

-- The block size that `thread_init` gives to bin `i`, from 2 on.
abbrev pub bin_block_size : ℕ → ℕ
bin_block_size i = 16 * (i - 1)

-- A request of 1 to 1024 bytes gets a bin of the array whose blocks hold it with less than 16 bytes
-- to spare.
pub cxl_page_queue_fits :
    (tls size : ℕ)
    → 1 ≤ size
    → size ≤ 1024
    → (i : ℕ) × (cxl_page_queue tls false size ≡ pages_at tls i)
      × (2 ≤ i)
      × (i < cxl_bin_size)
      × (size ≤ bin_block_size i)
      × (bin_block_size i < size + 16)
unfolding cxl_page_queue
cxl_page_queue_fits tls size lo hi =
    ((size - 1) / 16 + 2, refl, omega arith, omega arith, omega arith, omega arith)

-- The block size of a bin, from 2 on, leads back to the bin, so a page is freed to the queue that
-- it came from.
pub cxl_page_queue-bin_block_size :
    (tls i : ℕ) → 2 ≤ i → cxl_page_queue tls false (bin_block_size i) ≡ pages_at tls i
unfolding cxl_page_queue
cxl_page_queue-bin_block_size tls i h = omega arith

-- A request of more than 1024 bytes gets an address that is not in the array `pages`: the code has
-- no test for it. The first such address is that of `free_page`.
pub cxl_page_queue_out_of_range :
    (tls size : ℕ)
    → 1024 < size
    → (free_page_at tls ≤ cxl_page_queue tls false size)
      × (size ≤ 1040 → cxl_page_queue tls false size ≡ free_page_at tls)
unfolding cxl_page_queue
cxl_page_queue_out_of_range tls size h = omega arith

pub cxl_page_queue_special :
    (tls : ℕ)
    → (cxl_page_queue tls true root_ref_size ≡ pages_at tls 0)
      × (cxl_page_queue tls true message_queue_size ≡ pages_at tls 1)
unfolding cxl_page_queue
cxl_page_queue_special tls = (refl, refl)
