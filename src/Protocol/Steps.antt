-- ===== src/Protocol/Steps.antt =====
-- Every step keeps the invariant.
use sosp_paper19_ae.Base.{
  ℕ, ◌+◌, ◌≤◌, ◌<◌, ◌≡◌, refl, sym, ◌≢◌, inl, inr, arith, ◌==◌, Bool-cases, ==→ne, ◌^◌,
}
use sosp_paper19_ae.Layout.{max_thread}
use sosp_paper19_ae.Protocol.{
  Info, Op, link, unlink, Pc, idle, start, loaded, noted, logged, counted, written, System, Step,
  call, load, see, log, cas_lose, cas_win, assign, advance, update, update₂, note, era_after_note,
  new_cnt, IsStart, Reach, begin, next, HasRoom,
}
use sosp_paper19_ae.Protocol.Word.{new_cnt-fits, won-word}
use sosp_paper19_ae.Protocol.Inv.{LocalOk, Shows, CountShows, Inv}

-- What shows goes on to show while the object keeps its word and the eras seen grow.
Shows-mono :
    (s u : System) (x o e : ℕ)
    → u.info o ≡ s.info o
    → ((j : ℕ) → j ≢ x → s.eras j x ≤ u.eras j x)
    → Shows s x o e
    → Shows u x o e
Shows-mono s u x o e same grow (inl shown) = inl (rw same shown)
Shows-mono s u x o e same grow (inr (j, few, ne, seen)) = inr (j, few, ne, omega (arith, grow j ne))

CountShows-mono :
    (s u : System) (x : ℕ)
    → ((o : ℕ) → u.info o ≡ s.info o)
    → ((j : ℕ) → j ≢ x → s.eras j x ≤ u.eras j x)
    → (p : Pc) → CountShows s x p
    → CountShows u x p
CountShows-mono s u x same grow (counted op o e) h = Shows-mono s u x o e (same o) grow h
CountShows-mono s u x same grow (written op o e) h = Shows-mono s u x o e (same o) grow h
CountShows-mono s u x same grow _ h = tt

module _ (t : ℕ) (s : System) (inv : Inv s) where
  open inv use {info_lt, seen_lt, local, shows, cnt_lt, era_lt}

  call-Inv : (op : Op) (o : ℕ) → s.pc t ≡ idle → Inv (record s { pc = update s.pc t (start op o) })
  call-Inv op o e = record {
    info_lt = λ o'. ground (arith, info_lt o');
    seen_lt = λ x y ne. ground (arith, seen_lt x y);
    local = λ y. ground (arith, local y);
    shows = λ x. ground (arith, shows x);
    cnt_lt = λ o'. ground (arith, cnt_lt o');
    era_lt = λ x. ground (arith, era_lt x, local t);
  }

  load-Inv :
      (op : Op) (o : ℕ)
      → s.pc t ≡ start op o
      → Inv (record s { pc = update s.pc t (loaded op o (s.info o) (s.eras t t)) })
  load-Inv op o e = record {
    info_lt = λ o'. ground (arith, info_lt o');
    seen_lt = λ x y ne. ground (arith, seen_lt x y);
    local = λ y. ground (arith, local y, info_lt o);
    shows = λ x. ground (arith, shows x);
    cnt_lt = λ o'. ground (arith, cnt_lt o');
    era_lt = λ x. ground (arith, era_lt x, local t);
  }

  abbrev seen : Op → ℕ → Info → ℕ → System
  seen op o w e = record s {
    eras = note t w s.eras;
    pc = update s.pc t (noted op o w (era_after_note op e (note t w s.eras t t)));
  }

  see-local :
      (op : Op) (o : ℕ) (w : Info) (e : ℕ)
      → s.pc t ≡ loaded op o w e
      → (y : ℕ) → LocalOk (seen op o w e) y ((seen op o w e).pc y)
  unfolding note era_after_note
  see-local link o w e at y = ground (arith, local y, local t)
  see-local unlink o w e at y = ground (arith, local y, local t)

  note-le : (w : Info) (x y : ℕ) → s.eras x y ≤ note t w s.eras x y
  unfolding note
  note-le w x y = ground arith

  see-shows :
      (op : Op) (o : ℕ) (w : Info) (e : ℕ)
      → s.pc t ≡ loaded op o w e
      → (x : ℕ) → CountShows (seen op o w e) x ((seen op o w e).pc x)
  see-shows op o w e at x = elim (Bool-cases (x == t)) [
    | inl here ↦ rw here tt
    | inr other ↦ rw other (
        CountShows-mono s (seen op o w e) x (λ o'. refl) (λ j ne. note-le w j x) (s.pc x) (shows x))
  ]

  see-Inv :
      (op : Op) (o : ℕ) (w : Info) (e : ℕ)
      → s.pc t ≡ loaded op o w e
      → Inv (record s {
        eras = note t w s.eras;
        pc = update s.pc t (noted op o w (era_after_note op e (note t w s.eras t t)));
      })
  unfolding note era_after_note
  see-Inv op o w e at = record {
    info_lt = λ o'. ground (arith, info_lt o', local t);
    seen_lt = λ x y ne. ground (arith, seen_lt x y, local t);
    local = λ y. see-local op o w e at y;
    shows = λ x. see-shows op o w e at x;
    cnt_lt = λ o'. ground (arith, cnt_lt o');
    era_lt = λ x. ground (arith, era_lt x, local t);
  }

  log-Inv :
      (op : Op) (o : ℕ) (w : Info) (e : ℕ)
      → s.pc t ≡ noted op o w e
      → Inv (record s { pc = update s.pc t (logged op o w e) })
  log-Inv op o w e at = record {
    info_lt = λ o'. ground (arith, info_lt o');
    seen_lt = λ x y ne. ground (arith, seen_lt x y);
    local = λ y. ground (arith, local y, local t);
    shows = λ x. ground (arith, shows x);
    cnt_lt = λ o'. ground (arith, cnt_lt o');
    era_lt = λ x. ground (arith, era_lt x, local t);
  }

  cas_lose-Inv :
      (op : Op) (o : ℕ) (w : Info) (e : ℕ)
      → s.pc t ≡ logged op o w e
      → Inv (record s { pc = update s.pc t (start op o) })
  cas_lose-Inv op o w e at = record {
    info_lt = λ o'. ground (arith, info_lt o');
    seen_lt = λ x y ne. ground (arith, seen_lt x y);
    local = λ y. ground (arith, local y);
    shows = λ x. ground (arith, shows x);
    cnt_lt = λ o'. ground (arith, cnt_lt o');
    era_lt = λ x. ground (arith, era_lt x, local t);
  }

  abbrev won : Op → ℕ → ℕ → ℕ → System
  won op o cnt e = record s {
    info = update s.info o (record { lcid = t; cnt = cnt; lenum = e });
    pc = update s.pc t (counted op o e);
  }

  -- A count of `x` on the object that is overwritten has been seen by the thread that overwrites it.
  won-Shows :
      (op : Op) (o cnt : ℕ) (w : Info) (e : ℕ)
      → t < max_thread
      → s.pc t ≡ logged op o w e
      → s.info o ≡ w
      → (x o' e' : ℕ) → x ≢ t
      → Shows s x o' e'
      → Shows (won op o cnt e) x o' e'
  won-Shows op o cnt w e few at same x o' e' ne (inl shown) = elim (Bool-cases (o' == o)) [
    | inl here ↦ inr (t, few, λ q. ne (sym q), ground (arith, local t))
    | inr other ↦ inl (rw other shown)
  ]
  won-Shows op o cnt w e few at same x o' e' ne (inr seen) = inr seen

  cas_win-others :
      (op : Op) (o cnt : ℕ) (w : Info) (e : ℕ)
      → t < max_thread
      → s.pc t ≡ logged op o w e
      → s.info o ≡ w
      → (x : ℕ) → x ≢ t
      → (p : Pc) → CountShows s x p
      → CountShows (won op o cnt e) x p
  cas_win-others op o cnt w e few at same x ne (counted op' o' e') h =
      won-Shows op o cnt w e few at same x o' e' ne h
  cas_win-others op o cnt w e few at same x ne (written op' o' e') h =
      won-Shows op o cnt w e few at same x o' e' ne h
  cas_win-others op o cnt w e few at same x ne _ h = tt

  cas_win-shows :
      (op : Op) (o cnt : ℕ) (w : Info) (e : ℕ)
      → t < max_thread
      → s.pc t ≡ logged op o w e
      → s.info o ≡ w
      → (x : ℕ) → CountShows (won op o cnt e) x ((won op o cnt e).pc x)
  cas_win-shows op o cnt w e few at same x = elim (Bool-cases (x == t)) [
    | inl here ↦ rw here (inl (ground arith))
    | inr other ↦
        rw other (cas_win-others op o cnt w e few at same x (==→ne x t other) (s.pc x) (shows x))
  ]

  cas_win-Inv :
      (op : Op) (o cnt : ℕ) (w : Info) (e : ℕ)
      → t < max_thread
      → s.pc t ≡ logged op o w e
      → s.info o ≡ w
      → cnt < 2 ^ 16
      → Inv (won op o cnt e)
  cas_win-Inv op o cnt w e few at same fits = record {
    info_lt = λ o'. ground (arith, info_lt o', local t);
    seen_lt = λ x y ne. ground (arith, seen_lt x y);
    local = λ y. ground (arith, local y, local t);
    shows = λ x. cas_win-shows op o cnt w e few at same x;
    cnt_lt = λ o'. ground (arith, cnt_lt o');
    era_lt = λ x. ground (arith, era_lt x, local t);
  }

  assign-Inv :
      (op : Op) (o e : ℕ)
      → s.pc t ≡ counted op o e
      → Inv (record s { pc = update s.pc t (written op o e) })
  assign-Inv op o e at = record {
    info_lt = λ o'. ground (arith, info_lt o');
    seen_lt = λ x y ne. ground (arith, seen_lt x y);
    local = λ y. ground (arith, local y, local t);
    shows = λ x. ground (arith, shows x, shows t);
    cnt_lt = λ o'. ground (arith, cnt_lt o');
    era_lt = λ x. ground (arith, era_lt x, local t);
  }

  abbrev advanced : System
  advanced = record s { eras = update₂ s.eras t t (s.eras t t + 1); pc = update s.pc t idle }

  advance-shows :
      (op : Op) (o e : ℕ)
      → s.pc t ≡ written op o e
      → (x : ℕ) → CountShows advanced x (advanced.pc x)
  advance-shows op o e at x = elim (Bool-cases (x == t)) [
    | inl here ↦ rw here tt
    | inr other ↦
        rw other
          (CountShows-mono s advanced x (λ o'. refl) (λ j ne. ground arith) (s.pc x) (shows x))
  ]

  advance-Inv :
      (op : Op) (o e : ℕ)
      → s.pc t ≡ written op o e
      → s.eras t t + 1 < 2 ^ 32
      → Inv (record s { eras = update₂ s.eras t t (s.eras t t + 1); pc = update s.pc t idle })
  advance-Inv op o e at more = record {
    info_lt = λ o'. ground (arith, info_lt o');
    seen_lt = λ x y ne. ground (arith, seen_lt x y);
    local = λ y. ground (arith, local y);
    shows = λ x. advance-shows op o e at x;
    cnt_lt = λ o'. ground (arith, cnt_lt o');
    era_lt = λ x. ground (arith, era_lt x, local t);
  }

pub Step-Inv :
    {t : ℕ} {s u : System} → t < max_thread → (st : Step t s u) → HasRoom st → Inv s → Inv u
Step-Inv {t} {s} few (call op o e) room inv = call-Inv t s inv op o e
Step-Inv {t} {s} few (load op o e) room inv = load-Inv t s inv op o e
Step-Inv {t} {s} few (see op o w e at) room inv = see-Inv t s inv op o w e at
Step-Inv {t} {s} few (log op o w e at) room inv = log-Inv t s inv op o w e at
Step-Inv {t} {s} few (cas_lose op o w e at ne) room inv = cas_lose-Inv t s inv op o w e at
Step-Inv {t} {s} few (cas_win op o w e at same) room inv =
    rw (won-word op o w e s at same few inv room) (
      cas_win-Inv t s inv op o (new_cnt op w.cnt) w e few at same
        (new_cnt-fits op w.cnt (rw same at (inv.cnt_lt o)) room))
Step-Inv {t} {s} few (assign op o e at) room inv = assign-Inv t s inv op o e at
Step-Inv {t} {s} few (advance op o e at small) room inv = advance-Inv t s inv op o e at small

IsStart-Inv : {s : System} → IsStart s → Inv s
IsStart-Inv {s} h = record {
  info_lt = λ o. omega (arith, h.left_eras o);
  seen_lt = λ x y ne. omega (arith, h.seen_eras x y ne);
  local = λ y. rw (h.all_idle y) tt;
  shows = λ x. rw (h.all_idle x) tt;
  cnt_lt = h.cnt_lt;
  era_lt = h.era_lt;
}

-- In every state that threads with ids below 1024 reach, as long as no link finds a count of 2 ^
-- 16 - 1, no unlink a count of 0, and no era wraps around: an era of a thread that an object's
-- word or another thread names is below the thread's current one, or is the current one between
-- its count and the end of the update; the locals of a thread fit its era and what it has noted; a
-- count that a thread has made in an update it has not ended shows in the object, or another
-- thread has seen its era; and counts and eras keep within 16 and 32 bits.
pub Reach-Inv : {s : System} → Reach s → Inv s
Reach-Inv (begin h) = IsStart-Inv h
Reach-Inv (next t r few st room) = Step-Inv few st room (Reach-Inv r)
