-- ===== src/Thread/Tests.antt =====
-- A new thread and its first allocation.
use sosp_paper19_ae.Thread.Malloc.{IsNew, IsAllocated, cxl_malloc-new}
use sosp_paper19_ae.Thread.New.{thread_init-IsNew}
use sosp_paper19_ae.Segment.Claim.{Fits}
use sosp_paper19_ae.Handle.{sas_thread_id, current_era}
use sosp_paper19_ae.Layout.Pointers.{segment_at}
use sosp_paper19_ae.Base.{◌≡◌, refl, arith, ℕ, ◌+◌, ◌*◌, ◌⊎◌, ◌≢◌, ◌<◌, ◌^◌, ◌%◌}
use sosp_paper19_ae.Memory.{Mem, ok, fault}
use sosp_paper19_ae.Layout.{
  page_size, segments_area_start, segment_size, sas_at, cxlobj_size, packed_id_at, tls_at,
}
use sosp_paper19_ae.Thread.{handle_of, thread_init, cxl_malloc}

-- A region of two segments in which nothing is allocated, and the region that the first thread
-- leaves.
abbrev size : ℕ
size = segments_area_start + 2 * segment_size

abbrev zeros : Mem
zeros = λ _. 0

thread_init-IsNew_example :
    (m' : Mem) × (thread_init 1 size 7 zeros ≡ ok (handle_of size 0) m')
    × (m' (packed_id_at (tls_at 0)) ≡ 7)
    × (current_era (handle_of size 0) m' ≡ (current_era (handle_of size 0) zeros + 1) % 2 ^ 32)
    × IsNew m' 0
thread_init-IsNew_example =
    thread_init-IsNew size 0 7 (omega arith) zeros 1 (omega arith) refl
      (λ j lt. absurd (omega arith)) (λ k j lt lt' e. refl)

record NewThread : Type 0 where
  region : Mem
  is_new : IsNew region 0

new_thread : NewThread
new_thread =
    let (m', run, id, cur_era, h) =
      thread_init-IsNew size 0 7 (omega arith) zeros 1 (omega arith) refl
        (λ j lt. absurd (omega arith)) (λ k j lt lt' e. refl) in
    record { region = m'; is_new = h }

cxl_malloc-new_example :
    ((cxl_malloc 1 (handle_of size 0) 100 0 new_thread.region ≡ fault)
      × ((j : ℕ) → Fits (handle_of size 0) j → sas_thread_id new_thread.region (sas_at j) ≢ 0))
    ⊎ ((k : ℕ) × Fits (handle_of size 0) k
        × (sas_thread_id new_thread.region (sas_at k) ≡ 0)
        × ((j : ℕ) → j < k → sas_thread_id new_thread.region (sas_at j) ≢ 0)
        × ((m' : Mem) × (cxl_malloc 1 (handle_of size 0) 100 0 new_thread.region
              ≡ ok
                  (record {
                    tbr = segment_at k + page_size;
                    value = segment_at k + 2 * page_size + cxlobj_size;
                  })
                  m')
            × (sas_thread_id m' (sas_at k) ≡ 1)
            × IsAllocated m' (segment_at k + page_size) (segment_at k + 2 * page_size) 1 0))
cxl_malloc-new_example =
    cxl_malloc-new size 0 (omega arith) (omega arith) new_thread.region new_thread.is_new 0 100 0
      (omega arith)
