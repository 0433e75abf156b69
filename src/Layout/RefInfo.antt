-- ===== src/Layout/RefInfo.antt =====
-- The packed words of include/cxlmalloc-internal.h.
use sosp_paper19_ae.Base.{ℕ, ◌+◌, ◌/◌, ◌%◌, ◌^◌, ◌≡◌, ◌<◌, arith}
use sosp_paper19_ae.Layout.{
  pack_ref_info, get_ref_cnt_from_info, get_lenum_from_info, get_lcid_from_info,
  pack_machine_process_id,
}

-- What is packed within the widths of the fields is read back.
pub pack_ref_info_fields :
    (lcid ref_cnt lenum : ℕ)
    → lcid < 2 ^ 16
    → ref_cnt < 2 ^ 16
    → lenum < 2 ^ 32
    → (get_lcid_from_info (pack_ref_info lcid ref_cnt lenum) ≡ lcid)
      × (get_ref_cnt_from_info (pack_ref_info lcid ref_cnt lenum) ≡ ref_cnt)
      × (get_lenum_from_info (pack_ref_info lcid ref_cnt lenum) ≡ lenum)
unfolding pack_ref_info get_ref_cnt_from_info get_lenum_from_info get_lcid_from_info
pack_ref_info_fields lcid ref_cnt lenum a b c = omega arith

-- Every 64-bit word is the packing of its fields.
pub pack_ref_info-get :
    (w : ℕ)
    → w < 2 ^ 64
    → pack_ref_info (get_lcid_from_info w) (get_ref_cnt_from_info w) (get_lenum_from_info w) ≡ w
unfolding pack_ref_info get_ref_cnt_from_info get_lenum_from_info get_lcid_from_info
pack_ref_info-get w h = omega arith

-- A count of 2 ^ 16 carries into the client id: it reads back as 0, under another client.
pub pack_ref_info_overflow :
    (lcid lenum : ℕ)
    → lcid < 2 ^ 16
    → lenum < 2 ^ 32
    → (get_ref_cnt_from_info (pack_ref_info lcid (2 ^ 16) lenum) ≡ 0)
      × (get_lcid_from_info (pack_ref_info lcid (2 ^ 16) lenum) ≡ (lcid + 1) % 2 ^ 16)
unfolding pack_ref_info get_ref_cnt_from_info get_lcid_from_info
pack_ref_info_overflow lcid lenum a c = omega arith

pub pack_machine_process_id_fields :
    (machine process : ℕ)
    → machine < 2 ^ 48
    → process < 2 ^ 16
    → (pack_machine_process_id machine process / 2 ^ 16 ≡ machine)
      × (pack_machine_process_id machine process % 2 ^ 16 ≡ process)
unfolding pack_machine_process_id
pack_machine_process_id_fields machine process a b = omega arith
