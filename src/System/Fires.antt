-- ===== src/System/Fires.antt =====
-- What an event of the system does to what it holds of one plan, and what stays as it was.
use arb_core.Common.{
  ℕ, ◌≡◌, inl, inr, ◌≢◌, refl, ap, Option, none, some, List, [], ◌∷◌, ◌++◌, String, arith,
  Bool-cases, ltb, length,
}
use arb_core.Decimal.{Decimal}
use arb_core.Strategy.Detector.{Opportunity}
use arb_core.Strategy.Engine.Detector.{handle_opportunity}
use arb_core.Strategy.Engine.Monitor.{scan_timeouts}
use arb_core.System.State.{
  System, Event, view_comes, tick, take_view, forward_plan, start_worker, forward_report,
  handle_report, forward_cancel, take_cancel, next_chance, work, finish, bound,
}
use arb_core.System.Actions.{fire, take_chance, after_chance, work_at, finish_at}
use arb_core.System.Views.{view_of}
use arb_core.System.Moves.{Moves, stays}
use arb_core.System.Steps.{
  tick-Moves, view-Moves, plan-Moves, spawn-Moves, report-Moves, monitor-Moves, pass_cancel-Moves,
  cancel-Moves,
}
use arb_core.System.Works.{finish_at-IsFinish, work_at-IsWork}
use arb_core.System.Working.{work-Moves, finish-Moves}
use arb_core.System.Chances.{other_chance-Moves}

module _ {D : Type 0} where
  -- the identity that an event gives to a plan
  abbrev pub minted_by : Event D → Option String
  minted_by (next_chance id now) = some id
  minted_by _ = none

  abbrev pub Spares : String → Event D → Type 0
  Spares id ev = minted_by ev ≢ some id

module _ {D F : Type 0} ⦃d : Decimal D⦄ where
  chance-Moves :
      (id : String) (s s' : System D F) (ops : List (Opportunity D)) (minted : String) (now : ℕ)
      → minted ≢ id
      → take_chance s ops minted now ≡ some s'
      → Moves F id (view_of id s) (view_of id s')
  chance-Moves id s s' [] minted now n h = cc
  chance-Moves id s s' (op ∷ ops) minted now n h =
      let same : s' ≡ after_chance s ops (handle_opportunity s.engine op minted now) = cc in
      rw same (other_chance-Moves id s op ops minted now n)

  -- An event that gives no plan this identity.
  pub fire-Moves :
      (id : String) (s s' : System D F) (ev : Event D)
      → Spares id ev
      → fire s ev ≡ some s'
      → Moves F id (view_of id s) (view_of id s')
  unfolding fire
  fire-Moves id s s' (view_comes view) n h =
      let same : s' ≡ record s { views = s.views ++ (view ∷ []) } = cc in
      stays (ap (view_of id) same)
  fire-Moves id s s' (tick now) n h =
      let same : s' ≡ record s { engine = scan_timeouts s.engine now } = cc in
      rw same (tick-Moves id s now)
  fire-Moves id s s' take_view n h = view-Moves id s s' s.chances s.views h
  fire-Moves id s s' (next_chance minted now) n h =
      chance-Moves id s s' s.chances minted now (λ e. n (ap (λ k. some k) e)) h
  fire-Moves id s s' forward_plan n h = plan-Moves id s s' s.engine.exec_sent refl h
  fire-Moves id s s' start_worker n h = spawn-Moves id s s' s.plans refl h
  fire-Moves id s s' (work i now late) n h = elim (Bool-cases (ltb (length s.responses) bound)) [
    | inl room ↦
        work-Moves id s s' now late (work_at i now late s.jobs) (work_at-IsWork i now late s.jobs)
          (ground arith)
    | inr full ↦ absurd (ground arith)
  ]
  fire-Moves id s s' (finish i) n h =
      finish-Moves id s s' (finish_at i s.jobs) (finish_at-IsFinish i s.jobs) h
  fire-Moves id s s' forward_report n h = report-Moves id s s' s.responses refl h
  fire-Moves id s s' handle_report n h = monitor-Moves id s s' s.reports refl h
  fire-Moves id s s' forward_cancel n h = pass_cancel-Moves id s s' s.engine.cancel_sent h
  fire-Moves id s s' take_cancel n h = cancel-Moves id s s' s.cancels h
