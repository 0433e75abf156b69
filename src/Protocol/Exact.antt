-- ===== src/Protocol/Exact.antt =====
-- The count of an object against the references that lead to it, while threads run at the same time.
use sosp_paper19_ae.Protocol
use sosp_paper19_ae.Protocol.Steps.{Reach-Inv}
use sosp_paper19_ae.Protocol.Word.{won-word}
use sosp_paper19_ae.Protocol.Inv.{Inv}
use sosp_paper19_ae.Base.{ℕ, zero, suc, ◌+◌, ◌-◌, ◌≤◌, ◌<◌, ◌≡◌, refl, ap, arith, ◌^◌}
use sosp_paper19_ae.Layout.{max_thread}
use sosp_paper19_ae.Protocol.Count.{linking, unlinking, dropping, sum, all, moved, dropping_more}
use sosp_paper19_ae.Protocol.{
  link, unlink, Pc, start, loaded, noted, logged, counted, System, Step, call, assign, update,
  IsStart, Info, cas_win, idle, new_cnt, load, see, note, era_after_note, log, cas_lose, written,
  advance, update₂, Op, HasRoom, Reach,
}

-- How a step changes the number of references that lead to each object.
abbrev pub after : {t : ℕ} {s u : System} → Step t s u → (ℕ → ℕ) → ℕ → ℕ
after (assign link o e at) refs = update refs o (refs o + 1)
after (assign unlink o e at) refs = update refs o (refs o - 1)
after _ refs = refs

-- A thread begins to drop a reference only if there is one that no other thread is dropping, and
-- counts a link only if the count has room.
abbrev pub IsAllowed : {t : ℕ} {s u : System} → Step t s u → (ℕ → ℕ) → Type 0
IsAllowed {t} {s} (call unlink o at) refs = all (dropping o) s < refs o
IsAllowed {t} {s} (cas_win link o w e at same) refs = w.cnt + 1 < 2 ^ 16
IsAllowed _ refs = Unit

-- A run, with the number of references that lead to each object. At its start no thread is in an
-- update, and the counts are those numbers.
pub data Run : System → (ℕ → ℕ) → Type 0 where
  begin : {s : System} {refs : ℕ → ℕ} → IsStart s → ((o : ℕ) → (s.info o).cnt ≡ refs o) → Run s refs
  next :
      {s u : System} {refs : ℕ → ℕ} (t : ℕ)
      → Run s refs
      → t < max_thread
      → (st : Step t s u) → IsAllowed st refs
      → Run u (after st refs)

pub record IsExact (s : System) (refs : ℕ → ℕ) : Type 0 where
  pub exact : (o : ℕ) → (s.info o).cnt + all (unlinking o) s ≡ refs o + all (linking o) s
  pub held : (o : ℕ) → all (dropping o) s ≤ refs o

-- A thread that moves on with no count and no reference written.
stays-IsExact :
    {t : ℕ} {a : Pc} (s : System) (eras : ℕ → ℕ → ℕ) (refs : ℕ → ℕ) (p : Pc)
    → t < max_thread
    → s.pc t ≡ a
    → ((x : ℕ)
        → (linking x p ≡ linking x a)
          × (unlinking x p ≡ unlinking x a)
          × (dropping x p ≤ dropping x a))
    → IsExact s refs
    → IsExact (record { info = s.info; eras = eras; pc = update s.pc t p }) refs
stays-IsExact s eras refs p few at same h = record {
  exact = λ x.
      omega
        (arith, h.exact x, moved s p (unlinking x) few at, moved s p (linking x) few at, same x);
  held = λ x. omega (arith, h.held x, moved s p (dropping x) few at, same x);
}

-- The system once thread `t` has counted: `cnt` is the new count.
abbrev won : System → Op → ℕ → ℕ → ℕ → ℕ → System
won s op t o cnt e = record s {
  info = update s.info o (record { lcid = t; cnt = cnt; lenum = e });
  pc = update s.pc t (counted op o e);
}

module _ {t : ℕ} (s : System) (refs : ℕ → ℕ) (o : ℕ) (w : Info) (e : ℕ) (few : t < max_thread) where
  link-IsExact :
      s.pc t ≡ logged link o w e
      → s.info o ≡ w
      → IsExact s refs
      → IsExact (won s link t o (new_cnt link w.cnt) e) refs
  unfolding new_cnt
  link-IsExact at same h = record {
    exact = λ x. ground (
      arith,
      h.exact x,
      ap (λ (i : Info). i.cnt) same,
      moved s (counted link o e) (unlinking x) few at,
      moved s (counted link o e) (linking x) few at,
    );
    held = λ x. ground (arith, h.held x, moved s (counted link o e) (dropping x) few at);
  }

  -- The reference that an unlink is about to drop is counted.
  unlink-room : s.pc t ≡ logged unlink o w e → s.info o ≡ w → IsExact s refs → 0 < w.cnt
  unlink-room at same h =
      omega
        (arith, h.exact o, h.held o, ap (λ (i : Info). i.cnt) same, dropping_more s o w e few at)

  unlink-IsExact :
      s.pc t ≡ logged unlink o w e
      → s.info o ≡ w
      → 0 < w.cnt
      → IsExact s refs
      → IsExact (won s unlink t o (new_cnt unlink w.cnt) e) refs
  unfolding new_cnt
  unlink-IsExact at same room h = record {
    exact = λ x. ground (
      arith,
      h.exact x,
      room,
      ap (λ (i : Info). i.cnt) same,
      moved s (counted unlink o e) (unlinking x) few at,
      moved s (counted unlink o e) (linking x) few at,
    );
    held = λ x. ground (arith, h.held x, moved s (counted unlink o e) (dropping x) few at);
  }

Step-IsExact :
    {t : ℕ} {s u : System} (refs : ℕ → ℕ)
    → t < max_thread
    → (st : Step t s u) → IsAllowed st refs
    → Inv s
    → IsExact s refs
    → IsExact u (after st refs)
Step-IsExact {t} {s} refs few (call link o at) ok inv h =
    stays-IsExact s s.eras refs (start link o) few at (λ x. omega arith) h
Step-IsExact {t} {s} refs few (call unlink o at) ok inv h = record {
  exact = λ x. ground (
    arith,
    h.exact x,
    moved s (start unlink o) (unlinking x) few at,
    moved s (start unlink o) (linking x) few at,
  );
  held = λ x. ground (arith, h.held x, ok, moved s (start unlink o) (dropping x) few at);
}
Step-IsExact {t} {s} refs few (load link o at) ok inv h =
    stays-IsExact s s.eras refs (loaded link o (s.info o) (s.eras t t)) few at (λ x. omega arith) h
Step-IsExact {t} {s} refs few (load unlink o at) ok inv h =
    stays-IsExact s s.eras refs (loaded unlink o (s.info o) (s.eras t t)) few at (λ x. omega arith)
      h
Step-IsExact {t} {s} refs few (see link o w e at) ok inv h =
    stays-IsExact s (note t w s.eras) refs
      (noted link o w (era_after_note link e (note t w s.eras t t))) few at (λ x. omega arith) h
Step-IsExact {t} {s} refs few (see unlink o w e at) ok inv h =
    stays-IsExact s (note t w s.eras) refs
      (noted unlink o w (era_after_note unlink e (note t w s.eras t t))) few at (λ x. omega arith) h
Step-IsExact {t} {s} refs few (log link o w e at) ok inv h =
    stays-IsExact s s.eras refs (logged link o w e) few at (λ x. omega arith) h
Step-IsExact {t} {s} refs few (log unlink o w e at) ok inv h =
    stays-IsExact s s.eras refs (logged unlink o w e) few at (λ x. omega arith) h
Step-IsExact {t} {s} refs few (cas_lose link o w e at ne) ok inv h =
    stays-IsExact s s.eras refs (start link o) few at (λ x. omega arith) h
Step-IsExact {t} {s} refs few (cas_lose unlink o w e at ne) ok inv h =
    stays-IsExact s s.eras refs (start unlink o) few at (λ x. omega arith) h
Step-IsExact {t} {s} refs few (cas_win link o w e at same) ok inv h =
    rw (won-word link o w e s at same few inv ok) (link-IsExact s refs o w e few at same h)
Step-IsExact {t} {s} refs few (cas_win unlink o w e at same) ok inv h =
    rw (won-word unlink o w e s at same few inv (unlink-room s refs o w e few at same h))
      (unlink-IsExact s refs o w e few at same (unlink-room s refs o w e few at same h) h)
Step-IsExact {t} {s} refs few (assign link o e at) ok inv h = record {
  exact = λ x. ground (
    arith,
    h.exact x,
    moved s (written link o e) (unlinking x) few at,
    moved s (written link o e) (linking x) few at,
  );
  held = λ x. ground (arith, h.held x, moved s (written link o e) (dropping x) few at);
}
Step-IsExact {t} {s} refs few (assign unlink o e at) ok inv h = record {
  exact = λ x. ground (
    arith,
    h.exact x,
    h.held x,
    moved s (written unlink o e) (dropping x) few at,
    moved s (written unlink o e) (unlinking x) few at,
    moved s (written unlink o e) (linking x) few at,
  );
  held = λ x. ground (arith, h.held x, moved s (written unlink o e) (dropping x) few at);
}
Step-IsExact {t} {s} refs few (advance link o e at small) ok inv h =
    stays-IsExact s (update₂ s.eras t t (s.eras t t + 1)) refs idle few at (λ x. omega arith) h
Step-IsExact {t} {s} refs few (advance unlink o e at small) ok inv h =
    stays-IsExact s (update₂ s.eras t t (s.eras t t + 1)) refs idle few at (λ x. omega arith) h

sum-idle :
    (n : ℕ) (g : Pc → ℕ) (pc : ℕ → Pc) → g idle ≡ 0 → ((t : ℕ) → pc t ≡ idle) → sum n g pc ≡ 0
unfolding sum
sum-idle zero g pc off at = refl
sum-idle (suc n) g pc off at = rw (sum-idle n g pc off at, at n, off) refl

-- The steps of a run find room for their counts.
allowed-HasRoom :
    {t : ℕ} {s u : System} (refs : ℕ → ℕ)
    → t < max_thread
    → (st : Step t s u) → IsAllowed st refs
    → IsExact s refs
    → HasRoom st
allowed-HasRoom refs few (cas_win link o w e at same) ok h = ok
allowed-HasRoom {t} {s} refs few (cas_win unlink o w e at same) ok h =
    unlink-room s refs o w e few at same h
allowed-HasRoom refs few (call op o at) ok h = tt
allowed-HasRoom refs few (load op o at) ok h = tt
allowed-HasRoom refs few (see op o w e at) ok h = tt
allowed-HasRoom refs few (log op o w e at) ok h = tt
allowed-HasRoom refs few (cas_lose op o w e at ne) ok h = tt
allowed-HasRoom refs few (assign op o e at) ok h = tt
allowed-HasRoom refs few (advance op o e at small) ok h = tt

Run-both : {s : System} {refs : ℕ → ℕ} → Run s refs → Reach s × IsExact s refs
Run-both (begin {s} {refs} h same) = (
  Protocol.begin h,
  record {
    exact = λ o. omega (
      arith,
      same o,
      sum-idle max_thread (unlinking o) s.pc refl h.all_idle,
      sum-idle max_thread (linking o) s.pc refl h.all_idle,
    );
    held = λ o. omega (arith, sum-idle max_thread (dropping o) s.pc refl h.all_idle);
  },
)
Run-both (next {s} {u} {refs} t r few st ok) =
    let (reach, exact) = Run-both r in
    (
      Protocol.next t reach few st (allowed-HasRoom refs few st ok exact),
      Step-IsExact refs few st ok (Reach-Inv reach) exact,
    )

module _ {s : System} {refs : ℕ → ℕ} (r : Run s refs) (o : ℕ) where
  -- In every run of threads with ids below 1024, each of which drops only references that no other is
  -- dropping, in which no link finds a count of 2 ^ 16 - 1 and no era wraps around, the count of an object differs from the number of references that lead to it by the
  -- updates that are counted and not written yet: no update is lost, whatever the order.
  pub count_exact : (s.info o).cnt + all (unlinking o) s ≡ refs o + all (linking o) s
  count_exact = (Run-both r).1.exact o

  -- Once no thread is in an update, the count is the number of references.
  pub count_exact_idle : ((t : ℕ) → s.pc t ≡ idle) → (s.info o).cnt ≡ refs o
  count_exact_idle at = omega (
    arith,
    count_exact,
    sum-idle max_thread (unlinking o) s.pc refl at,
    sum-idle max_thread (linking o) s.pc refl at,
  )
