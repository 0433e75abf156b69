-- ===== src/Protocol/Recovery.antt =====
-- What `monitor::redo_ref_cnt` of src/recovery.cpp concludes about a thread that died in an update.
use sosp_paper19_ae.Base.{
  ℕ, zero, suc, ◌+◌, ◌≤◌, ◌<◌, ◌≡◌, ◌≢◌, ◌⊎◌, inl, inr, Bool, true, false, arith, ℕ_discrete,
}
use sosp_paper19_ae.Layout.{max_thread}
use sosp_paper19_ae.Redo.{max_seen, is_counted}
use sosp_paper19_ae.Protocol.{Info, Op, logged, counted, written, System, Reach}
use sosp_paper19_ae.Protocol.Inv.{Shows}
use sosp_paper19_ae.Protocol.Steps.{Reach-Inv}

module _ (id : ℕ) (seen : ℕ → ℕ) where
  -- The loop covers every index below its bound but `id`.
  pub le-max_seen : (n j : ℕ) → j < n → j ≢ id → seen j ≤ max_seen n id seen
  unfolding max_seen
  le-max_seen zero j h ne = absurd (omega arith)
  le-max_seen (suc n) j h ne = elim (ℕ_discrete j n) [
    | yes e ↦ rw e (ground arith)
    | no other ↦ ground (arith, le-max_seen n j)
  ]

  pub max_seen-lt : (n e : ℕ) → 0 < e → ((j : ℕ) → j ≢ id → seen j < e) → max_seen n id seen < e
  unfolding max_seen
  max_seen-lt zero e pos h = pos
  max_seen-lt (suc n) e pos h = ground (arith, max_seen-lt n e pos h, h n)

-- The test of `redo_ref_cnt` for the update of era `cur_era` of thread `t` on object `o`.
abbrev pub monitor_decides : System → ℕ → ℕ → ℕ → Bool
monitor_decides s t o cur_era =
    is_counted t (s.info o).lcid (s.info o).lenum cur_era (λ j. s.eras j t)

Shows-decides : (s : System) (t o e : ℕ) → Shows s t o e → monitor_decides s t o e ≡ true
unfolding is_counted
Shows-decides s t o e (inl (a, b)) = ground arith
Shows-decides s t o e (inr (j, few, ne, seen)) =
    ground (arith, le-max_seen t (λ k. s.eras k t) max_thread j few ne)

module _ {s : System} (r : Reach s) (t o : ℕ) {op : Op} {e : ℕ} where
  -- In every state in which a thread has written its log and not made its count, the monitor
  -- decides that there is nothing to redo. The ids of the threads are below 1024, and up to there no
  -- link found a count of 2 ^ 16 - 1, no unlink a count of 0, and no era wrapped around.
  pub logged-nothing_to_redo :
      {w : Info} → s.pc t ≡ logged op o w e → monitor_decides s t o e ≡ false
  unfolding is_counted
  logged-nothing_to_redo {w} at = ground (arith, info_lt o, fresh, lower)
    where
      open (Reach-Inv r) use {info_lt, seen_lt, local}

      fresh : e ≡ s.eras t t
      fresh = ground (arith, local t)

      below : (j : ℕ) → j ≢ t → s.eras j t < e
      below j ne = ground (arith, seen_lt j t ne, fresh)

      lower : max_seen max_thread t (λ j. s.eras j t) < e
      lower =
          max_seen-lt t (λ j. s.eras j t) max_thread e (omega (arith, below (t + 1) (omega arith)))
            below

  -- In every state in which a thread has made its count and not left its era, the monitor decides
  -- to redo the assignment, whatever other threads have done to the object since. The ids of the
  -- threads are below 1024, and up to there no link found a count of 2 ^ 16 - 1, no unlink a count of
  -- 0, and no era wrapped around.
  pub counted-redo :
      (s.pc t ≡ counted op o e) ⊎ (s.pc t ≡ written op o e) → monitor_decides s t o e ≡ true
  counted-redo (inl at) = Shows-decides s t o e (rw at at ((Reach-Inv r).shows t))
  counted-redo (inr at) = Shows-decides s t o e (rw at at ((Reach-Inv r).shows t))
