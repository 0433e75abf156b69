-- ===== src/Protocol/Inv.antt =====
-- What every reachable state of the protocol has.
use sosp_paper19_ae.Base.{ℕ, ◌+◌, ◌≤◌, ◌<◌, ◌≡◌, ◌≢◌, ◌⊎◌, ◌^◌}
use sosp_paper19_ae.Layout.{max_thread}
use sosp_paper19_ae.Protocol.{Pc, idle, start, loaded, noted, logged, counted, written, System}

-- A thread that has made a count and has not left its era.
abbrev pub busy : Pc → ℕ
busy (counted op o e) = 1
busy (written op o e) = 1
busy _ = 0

-- The eras of `x` below this one may be known to others and to objects.
abbrev pub limit : System → ℕ → ℕ
limit s x = s.eras x x + busy (s.pc x)

-- What the locals of thread `y` say.
abbrev pub LocalOk : System → ℕ → Pc → Type 0
LocalOk s y idle = Unit
LocalOk s y (start op o) = Unit
LocalOk s y (loaded op o w e) = (w.lenum < limit s w.lcid) × (e ≡ s.eras y y)
LocalOk s y (noted op o w e) =
    (w.lenum < limit s w.lcid) × (e ≡ s.eras y y) × (w.lenum ≤ s.eras y w.lcid)
LocalOk s y (logged op o w e) =
    (w.lenum < limit s w.lcid) × (e ≡ s.eras y y) × (w.lenum ≤ s.eras y w.lcid)
LocalOk s y (counted op o e) = e ≡ s.eras y y
LocalOk s y (written op o e) = e ≡ s.eras y y

-- The count that thread `x` made in era `e` shows in the object, or another thread has seen it.
abbrev pub Shows : System → ℕ → ℕ → ℕ → Type 0
Shows s x o e =
    (((s.info o).lcid ≡ x) × ((s.info o).lenum ≡ e))
    ⊎ ((j : ℕ) × (j < max_thread) × (j ≢ x) × (e ≤ s.eras j x))

abbrev pub CountShows : System → ℕ → Pc → Type 0
CountShows s x (counted op o e) = Shows s x o e
CountShows s x (written op o e) = Shows s x o e
CountShows s x _ = Unit

pub record Inv (s : System) : Type 0 where
  pub info_lt : (o : ℕ) → (s.info o).lenum < limit s (s.info o).lcid
  pub seen_lt : (x y : ℕ) → x ≢ y → s.eras x y < limit s y
  pub local : (y : ℕ) → LocalOk s y (s.pc y)
  pub shows : (x : ℕ) → CountShows s x (s.pc x)
  pub cnt_lt : (o : ℕ) → (s.info o).cnt < 2 ^ 16
  pub era_lt : (x : ℕ) → s.eras x x < 2 ^ 32
