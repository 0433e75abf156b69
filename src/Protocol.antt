-- ===== src/Protocol.antt =====
-- `link_reference` and `unlink_reference` of src/cxl_shm.cpp as steps of threads that run at the
-- same time, one shared access to a step, over the counts of live objects and the array of eras.
-- A thread that has died is one that takes no more steps. An era that is about to wrap around at
-- 2 ^ 32 does not advance: what is said holds for runs up to there. The word `ref_info` is taken as
-- the three fields that are read out of it; a count packs them and reads them back, with the carry of
-- a count past 16 bits and the borrow of one below 0.
pub mod Inv
pub mod Word
pub mod Steps
pub mod Recovery
mod Tests
pub mod Exact
pub mod Count
use sosp_paper19_ae.RefCount.{cnt_pred}
use sosp_paper19_ae.Base.{ℕ, ◌+◌, ◌-◌, ◌*◌, ◌^◌, ◌<◌, ◌≡◌, ◌≢◌, ◌&&◌, ltb, ◌==◌, if◌then◌else◌}
use sosp_paper19_ae.Layout.{
  max_thread, era, pack_ref_info, get_ref_cnt_from_info, get_lcid_from_info, get_lenum_from_info,
}

-- The fields of a `ref_info`.
pub record Info : Type 0 where
  pub lcid : ℕ
  pub cnt : ℕ
  pub lenum : ℕ

pub data Op : Type 0 where
  link unlink : Op

-- `ref_info_cnt+1` and `ref_info_cnt-1`, the latter converted from `int` to `uint64_t`.
unfoldable pub new_cnt : Op → ℕ → ℕ
new_cnt link cnt = cnt + 1
new_cnt unlink cnt = cnt_pred cnt

-- The word that the compare-exchange writes, `pack_ref_info(thread_id, new_cnt, cur_era)`, as it is
-- read back. A count that does not fit into 16 bits changes the client id.
unfoldable pub counted_word : Op → ℕ → Info → ℕ → Info
counted_word op t w cur_era =
    let word = pack_ref_info t (new_cnt op w.cnt) cur_era in
    record {
      lcid = get_lcid_from_info word;
      cnt = get_ref_cnt_from_info word;
      lenum = get_lenum_from_info word;
    }

-- Where a thread stands, with the object, the word that it has read, and its era.
pub data Pc : Type 0 where
  idle : Pc
  start : Op → (object : ℕ) → Pc  -- before `ref_info = refed->ref_info`
  loaded : Op → (object : ℕ) (w : Info) (cur_era : ℕ) → Pc  -- before the test of `*ele`
  noted : Op → (object : ℕ) (w : Info) (cur_era : ℕ) → Pc  -- before the log is written
  logged : Op → (object : ℕ) (w : Info) (cur_era : ℕ) → Pc  -- before the compare-exchange
  counted : Op → (object : ℕ) (cur_era : ℕ) → Pc  -- before `_ref` is written
  written : Op → (object : ℕ) (cur_era : ℕ) → Pc  -- before the era advances

-- `eras x y` is `*era(x, y)`: the era of `y` that `x` has seen.
pub record System : Type 0 where
  pub info : ℕ → Info
  pub eras : ℕ → ℕ → ℕ
  pub pc : ℕ → Pc

abbrev pub update {ℓ} : {A : Type ℓ} → (ℕ → A) → ℕ → A → ℕ → A
update f i a j = if j == i then a else f j

abbrev pub update₂ : (ℕ → ℕ → ℕ) → ℕ → ℕ → ℕ → ℕ → ℕ → ℕ
update₂ f i j a x y = if (x == i) && (y == j) then a else f x y

-- `if(saw_era > *ele) *ele = saw_era`
unfoldable pub note : ℕ → Info → (ℕ → ℕ → ℕ) → ℕ → ℕ → ℕ
note t w eras = if ltb (eras t w.lcid) w.lenum then update₂ eras t w.lcid w.lenum else eras

-- `link_reference` reads its era before the test of `*ele`, `unlink_reference` after it.
unfoldable pub era_after_note : Op → ℕ → ℕ → ℕ
era_after_note link cur_era now = cur_era
era_after_note unlink cur_era now = now

-- A step of thread `t`.
pub data Step (t : ℕ) (s : System) : System → Type 0 where
  call : (op : Op) (o : ℕ) → s.pc t ≡ idle → Step t s (record s { pc = update s.pc t (start op o) })
  load :
      (op : Op) (o : ℕ)
      → s.pc t ≡ start op o
      → Step t s (record s { pc = update s.pc t (loaded op o (s.info o) (s.eras t t)) })
  see :
      (op : Op) (o : ℕ) (w : Info) (e : ℕ)
      → s.pc t ≡ loaded op o w e
      → Step t s (record s {
        eras = note t w s.eras;
        pc = update s.pc t (noted op o w (era_after_note op e (note t w s.eras t t)));
      })
  log :
      (op : Op) (o : ℕ) (w : Info) (e : ℕ)
      → s.pc t ≡ noted op o w e
      → Step t s (record s { pc = update s.pc t (logged op o w e) })
  cas_lose :
      (op : Op) (o : ℕ) (w : Info) (e : ℕ)
      → s.pc t ≡ logged op o w e
      → s.info o ≢ w
      → Step t s (record s { pc = update s.pc t (start op o) })
  cas_win :
      (op : Op) (o : ℕ) (w : Info) (e : ℕ)
      → s.pc t ≡ logged op o w e
      → s.info o ≡ w
      → Step t s (record s {
        info = update s.info o (counted_word op t w e);
        pc = update s.pc t (counted op o e);
      })
  assign :
      (op : Op) (o e : ℕ)
      → s.pc t ≡ counted op o e
      → Step t s (record s { pc = update s.pc t (written op o e) })
  advance :
      (op : Op) (o e : ℕ)
      → s.pc t ≡ written op o e
      → s.eras t t + 1 < 2 ^ 32
      → Step t s (record s { eras = update₂ s.eras t t (s.eras t t + 1); pc = update s.pc t idle })

-- The count that a link, or an unlink, finds leaves room for its own.
abbrev pub RoomFor : Op → ℕ → Type 0
RoomFor link cnt = cnt + 1 < 2 ^ 16
RoomFor unlink cnt = 0 < cnt

abbrev pub HasRoom : {t : ℕ} {s u : System} → Step t s u → Type 0
HasRoom (cas_win op o w e at same) = RoomFor op w.cnt
HasRoom _ = Unit

-- Every object was last counted in an era that its thread has left, and eras of others are known
-- only up to there. Counts have 16 bits, eras 32.
pub record IsStart (s : System) : Type 0 where
  pub all_idle : (t : ℕ) → s.pc t ≡ idle
  pub left_eras : (o : ℕ) → (s.info o).lenum < s.eras (s.info o).lcid (s.info o).lcid
  pub seen_eras : (x y : ℕ) → x ≢ y → s.eras x y < s.eras y y
  pub cnt_lt : (o : ℕ) → (s.info o).cnt < 2 ^ 16
  pub era_lt : (t : ℕ) → s.eras t t < 2 ^ 32

-- The runs whose counts have room. The loop of `redo_ref_cnt` asks the threads below `max_thread`:
-- the runs are those of the threads with these ids.
pub data Reach : System → Type 0 where
  begin : {s : System} → IsStart s → Reach s
  next :
      {s u : System} (t : ℕ) → Reach s → t < max_thread → (st : Step t s u) → HasRoom st → Reach u
