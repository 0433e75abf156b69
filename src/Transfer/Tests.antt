-- ===== src/Transfer/Tests.antt =====
-- A queue with one object, and the reference that its receiver gets.
use sosp_paper19_ae.Transfer.Unwrap.{HasRoot, cxl_unwrap-first}
use sosp_paper19_ae.Base.{
  true, false, ◌≢◌, ◌⊎◌, length, ℕ, ◌+◌, ◌≡◌, refl, [], ◌∷◌, inl, inr, arith, ◌==◌, if◌then◌else◌,
}
use sosp_paper19_ae.Memory.{Mem, store, ok, fault}
use sosp_paper19_ae.Layout.{
  get_lcid_from_info, segments_area_start, ref_info_at, meta_page_at, pages_at, tls_at,
  pack_ref_info, end_at, buffer_at, get_ref_cnt_from_info, cxlobj_size,
}
use sosp_paper19_ae.Thread.{handle_of}
use sosp_paper19_ae.RefCount.Frame.{HasClient}
use sosp_paper19_ae.Alloc.{CxlRef}
use sosp_paper19_ae.Transfer.{sent_to, cxl_unwrap}
use sosp_paper19_ae.Transfer.Ring.{IsRing}
use sosp_paper19_ae.Transfer.Send.{sent_to-IsRing}
use sosp_paper19_ae.Transfer.Receive.{IsFree}

abbrev queue : ℕ
queue = segments_area_start + 4096

abbrev object : ℕ
object = segments_area_start + 8192

abbrev root : ℕ
root = segments_area_start + 12288

abbrev new_root : ℕ
new_root = segments_area_start + 12304

abbrev page : ℕ
page = meta_page_at segments_area_start 1

-- `root` leads to the object, which counts it.
abbrev one_object : Mem
one_object = λ a.
    if a == root
    then object
    else if a == ref_info_at object
    then pack_ref_info 1 1 1
    else if a == pages_at (tls_at 0) 0
    then page
    else if a == page
    then new_root
    else 0

object_word : HasClient (one_object (ref_info_at object))
unfolding pack_ref_info get_lcid_from_info
object_word = (omega arith, omega arith)

empty-IsRing : IsRing one_object queue []
unfolding pack_ref_info
empty-IsRing = record { start_lt = omega arith; room = omega arith; holds = refl }

abbrev root_ref : CxlRef
root_ref = record { tbr = root; value = object + cxlobj_size }

sent_to-IsRing_example :
    ((root ≡ 0) × (sent_to (handle_of 0 0) queue root_ref one_object ≡ fault))
    ⊎ ((root ≢ 0)
        × (length {A = ℕ} [] ≡ 15)
        × (sent_to (handle_of 0 0) queue root_ref one_object ≡ ok false one_object))
    ⊎ ((root ≢ 0)
        × (length {A = ℕ} [] ≢ 15)
        × ((m' : Mem) × (sent_to (handle_of 0 0) queue root_ref one_object ≡ ok true m')
            × IsRing m' queue (object ∷ [])))
sent_to-IsRing_example =
    sent_to-IsRing 0 0 (omega arith) queue (omega arith) one_object root_ref [] empty-IsRing
      object_word (inr (omega arith)) (omega arith)

-- The same with the object in the queue.
abbrev one_sent : Mem
one_sent = store (store one_object (buffer_at queue 0) object) (end_at queue) 1

one_sent-IsRing : IsRing one_sent queue (object ∷ [])
unfolding store pack_ref_info
one_sent-IsRing = record {
  start_lt = omega arith;
  room = omega arith;
  holds = (omega arith, refl, omega arith, refl);
}

counted_object :
    HasClient (one_sent (ref_info_at object))
    × (get_ref_cnt_from_info (one_sent (ref_info_at object)) ≡ 1)
unfolding store pack_ref_info get_lcid_from_info get_ref_cnt_from_info
counted_object = ((omega arith, omega arith), refl)

new_root-IsFree : IsFree queue object new_root
new_root-IsFree = record {
  high = omega arith;
  outside = inr (omega arith);
  no_count = inl (omega arith);
}

one_sent-HasRoot : HasRoot one_sent (tls_at 0) queue object page new_root []
unfolding store pack_ref_info
one_sent-HasRoot = record {
  first = refl;
  page_high = omega arith;
  beside = inr (omega arith);
  blocks = (refl, refl);
  spare = tt;
  page_queue = inl (omega arith);
  page_count = inr (omega arith);
  block = new_root-IsFree;
}

cxl_unwrap-first_example :
    (m' : Mem) × (cxl_unwrap 0 (handle_of 0 0) queue one_sent
      ≡ ok (record { tbr = new_root; value = object + cxlobj_size }) m')
    × IsRing m' queue []
    × (m' new_root ≡ object)
    × (get_ref_cnt_from_info (m' (ref_info_at object))
        ≡ get_ref_cnt_from_info (one_sent (ref_info_at object)))
cxl_unwrap-first_example =
    cxl_unwrap-first 0 0 (omega arith) queue object page new_root [] [] one_sent (omega arith)
      (omega arith) (inr (omega arith)) one_sent-HasRoot 0 one_sent-IsRing counted_object.0
      (omega (arith, counted_object.1)) (omega (arith, counted_object.1))
