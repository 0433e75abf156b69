-- ===== src/Layout/Pointers.antt =====
-- From a block to its page and segment and back: `cxl_ptr_page`, `cxl_ptr_segment`.
use sosp_paper19_ae.Base.{ℕ, ◌+◌, ◌-◌, ◌*◌, ◌/◌, ◌≡◌, ◌≤◌, ◌<◌, arith}
use sosp_paper19_ae.Layout.{
  page_size, segment_size, pages_per_segment, cxl_page_size, segments_area_start, meta_page_at,
  sas_at, cxl_ptr_segment, cxl_ptr_page, cxl_page_start, cxl_page_block_at, sas_of_segment,
}

-- The offset of segment `k`.
abbrev pub segment_at : ℕ → ℕ
segment_at k = segments_area_start + k * segment_size

-- Page descriptor `i` of segment `k`.
abbrev pub page_at : ℕ → ℕ → ℕ
page_at k i = meta_page_at (segment_at k) i

-- Block `j` of size `size` in page `i` of segment `k`.
abbrev pub block_at : ℕ → ℕ → ℕ → ℕ → ℕ
block_at k i size j = cxl_page_block_at (cxl_page_start (segment_at k) (page_at k i)) size j

pub segment_of-page_at :
    (k i : ℕ) → i < pages_per_segment → cxl_ptr_segment (page_at k i) ≡ segment_at k
unfolding cxl_ptr_segment
segment_of-page_at k i h = omega arith

pub cxl_page_start_lem :
    (k i : ℕ) → cxl_page_start (segment_at k) (page_at k i) ≡ segment_at k + i * page_size
unfolding cxl_page_start
cxl_page_start_lem k i = omega arith

-- An offset inside page `i` of a segment belongs to that segment and that page.
pub inside_page :
    (k i d : ℕ)
    → i < pages_per_segment
    → d < page_size
    → (cxl_ptr_segment (segment_at k + i * page_size + d) ≡ segment_at k)
      × (cxl_ptr_page (segment_at k + i * page_size + d) ≡ page_at k i)
unfolding cxl_ptr_page
inside_page k i d hi hd = omega arith

-- Every byte of a block that lies within a page leads back to the page and to its segment.
pub cxl_ptr_page-block :
    (k i size j d : ℕ)
    → i < pages_per_segment
    → j * size + size ≤ page_size
    → d < size
    → (cxl_ptr_segment (block_at k i size j + d) ≡ segment_at k)
      × (cxl_ptr_page (block_at k i size j + d) ≡ page_at k i)
unfolding cxl_page_start cxl_page_block_at
cxl_ptr_page-block k i size j d hi hj hd =
    let e : (segment_at k + (page_at k i - page_at k 0) / cxl_page_size * page_size + j * size + d)
        ≡ (segment_at k + i * page_size + (j * size + d)) =
      omega arith in
    rw e (inside_page k i (j * size + d) hi (omega arith))

-- The allocation states are those of the segments in order.
pub sas_of_segment_lem : (k : ℕ) → sas_of_segment (segment_at k) ≡ sas_at k
unfolding sas_of_segment
sas_of_segment_lem k = omega arith
