-- ===== src/System/Finite.antt =====
-- How long the tasks of the system can go on by themselves.
use arb_core.Common.{
  ◌≤◌, ◌<◌, ◌≡◌, inl, inr, refl, some, List, [], ◌∷◌, arith, ltb, length, Bool-cases,
}
use arb_core.Decimal.{Decimal}
use arb_core.Strategy.Config.{StrategyConfig}
use arb_core.System.State.{
  System, Event, view_comes, tick, take_view, forward_plan, start_worker, forward_report,
  handle_report, forward_cancel, take_cancel, next_chance, work, finish, bound, new_system,
}
use arb_core.System.Actions.{fire, work_at, finish_at, run_system}
use arb_core.System.Works.{work_at-IsWork, finish_at-IsFinish}
use arb_core.System.Keeping.{IsReady, fire-IsReady}
use arb_core.System.Runs.{reached-IsReady}
use arb_core.System.Rest.{IsInternal}
use arb_core.System.Load.{load}
use arb_core.System.Ends.{
  view-load, chance-load, plan-load, spawn-load, work-load, finish-load, report-load, monitor-load,
  pass_cancel-load, cancel-load,
}

module _ {D F : Type 0} ⦃d : Decimal D⦄ where
  -- An event of the system's own tasks leaves less to do.
  fire-load :
      (cfg : StrategyConfig D F) (s s' : System D F) (ev : Event D)
      → IsReady cfg s
      → IsInternal ev
      → fire s ev ≡ some s'
      → load s' < load s
  unfolding fire
  fire-load cfg s s' (view_comes view) v i h = absurd i
  fire-load cfg s s' (tick now) v i h = absurd i
  fire-load cfg s s' take_view v i h = view-load s s' s.chances s.views refl refl h
  fire-load cfg s s' (next_chance id now) v i h = chance-load s s' s.chances id now v.three refl h
  fire-load cfg s s' forward_plan v i h = plan-load s s' s.engine.exec_sent refl h
  fire-load cfg s s' start_worker v i h = spawn-load s s' s.plans refl h
  fire-load cfg s s' (work k now late) v i h = elim (Bool-cases (ltb (length s.responses) bound)) [
    | inl room ↦
        work-load s s' now late (work_at k now late s.jobs) (work_at-IsWork k now late s.jobs)
          (ground arith)
    | inr full ↦ absurd (ground arith)
  ]
  fire-load cfg s s' (finish k) v i h =
      finish-load s s' (finish_at k s.jobs) (finish_at-IsFinish k s.jobs) h
  fire-load cfg s s' forward_report v i h = report-load s s' s.responses refl h
  fire-load cfg s s' handle_report v i h = monitor-load s s' s.reports refl h
  fire-load cfg s s' forward_cancel v i h = pass_cancel-load s s' s.engine.cancel_sent refl h
  fire-load cfg s s' take_cancel v i h = cancel-load s s' s.cancels refl h

  -- Each of the events is work of the system's own tasks and can happen when its turn comes.
  abbrev pub GoesOn : System D F → List (Event D) → Type 0
  GoesOn s [] = Unit
  GoesOn s (ev ∷ evs) = IsInternal ev × ((s' : System D F) × (fire s ev ≡ some s') × GoesOn s' evs)

  GoesOn-le :
      (cfg : StrategyConfig D F) (s : System D F) (evs : List (Event D))
      → IsReady cfg s
      → GoesOn s evs
      → length evs ≤ load s
  GoesOn-le cfg s [] v g = omega arith
  GoesOn-le cfg s (ev ∷ evs) v (i, (s', h, g)) =
      let less = fire-load cfg s s' ev v i h in
      let ih = GoesOn-le cfg s' evs (fire-IsReady cfg s s' ev h v) g in omega arith

  -- In a state that a run from the start reached, its own tasks can do as many things as `load` counts
  -- at most, in whatever order, until a view comes or the ticker fires.
  pub run_system-load :
      (cfg : StrategyConfig D F) (past evs : List (Event D))
      → GoesOn (run_system (new_system cfg) past) evs
      → length evs ≤ load (run_system (new_system cfg) past)
  run_system-load cfg past evs g =
      GoesOn-le cfg (run_system (new_system cfg) past) evs (reached-IsReady cfg past) g
