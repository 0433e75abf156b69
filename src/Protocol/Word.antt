-- ===== src/Protocol/Word.antt =====
-- The word that a compare-exchange of `link_reference` or `unlink_reference` writes.
use sosp_paper19_ae.Base.{ℕ, ◌<◌, ◌≡◌, ◌^◌, refl, arith}
use sosp_paper19_ae.Layout.{max_thread}
use sosp_paper19_ae.Layout.RefInfo.{pack_ref_info_fields}
use sosp_paper19_ae.Protocol.{
  Info, Op, link, unlink, logged, System, new_cnt, counted_word, RoomFor,
}
use sosp_paper19_ae.Protocol.Inv.{Inv}

-- A count that has room is packed and read back unchanged.
pub counted_word_lem :
    (op : Op) (t : ℕ) (w : Info) (e : ℕ)
    → t < max_thread
    → new_cnt op w.cnt < 2 ^ 16
    → e < 2 ^ 32
    → counted_word op t w e ≡ record { lcid = t; cnt = new_cnt op w.cnt; lenum = e }
unfolding counted_word
counted_word_lem op t w e few fits small =
    let (lcid, cnt, lenum) = pack_ref_info_fields t (new_cnt op w.cnt) e (omega arith) fits small in
    rw (lcid, cnt, lenum) refl

-- The count that is made when there is room.
pub new_cnt-fits : (op : Op) (cnt : ℕ) → cnt < 2 ^ 16 → RoomFor op cnt → new_cnt op cnt < 2 ^ 16
unfolding new_cnt
new_cnt-fits link cnt lt room = room
new_cnt-fits unlink cnt lt room = ground arith

own_era :
    {t : ℕ} (op : Op) (o : ℕ) (w : Info) (e : ℕ) (s : System)
    → s.pc t ≡ logged op o w e
    → Inv s
    → e < 2 ^ 32
own_era {t} op o w e s at inv = ground (arith, inv.local t, inv.era_lt t)

pub won-word :
    {t : ℕ} (op : Op) (o : ℕ) (w : Info) (e : ℕ) (s : System) (at : s.pc t ≡ logged op o w e)
    (same : s.info o ≡ w)
    → t < max_thread
    → Inv s
    → RoomFor op w.cnt
    → counted_word op t w e ≡ record { lcid = t; cnt = new_cnt op w.cnt; lenum = e }
won-word {t} op o w e s at same few inv room =
    counted_word_lem op t w e few (new_cnt-fits op w.cnt (rw same at (inv.cnt_lt o)) room)
      (own_era op o w e s at inv)
