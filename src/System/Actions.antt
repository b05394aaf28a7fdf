-- ===== src/System/Actions.antt =====
-- What each task of the system does when its turn comes: the loops of the forwarders, of the execution
-- and of the engine, one round at a time.
use arb_core.Common.{
  ℕ, zero, suc, Bool, true, false, Option, none, some, List, [], ◌∷◌, ◌++◌, String, Outcome, ok,
  err, panic, ltb, length, if◌then◌else◌, ◌==◌,
}
use arb_core.Common.Dict.{find}
use arb_core.Decimal.{Decimal}
use arb_core.MarketData.Triangle.{TriView}
use arb_core.Strategy.Config.{StrategyError}
use arb_core.Strategy.Detector.{Opportunity, detect_triangular_opportunities}
use arb_core.Strategy.Planner.{TradePlan, OrderLeg}
use arb_core.Strategy.Engine.{StrategyEngine, ExecutionReport, CancelRequest, count_seen}
use arb_core.Strategy.Engine.Detector.{handle_opportunity}
use arb_core.Strategy.Engine.Monitor.{handle_exec_report, scan_timeouts}
use arb_core.Execution.Mock.{
  Signals, slept, woken, crashed, run_leg, start_plan, on_cancel, finish_plan,
}
use arb_core.System.State.{
  bound, Signal, silent, pending, taken, Job, System, Event, view_comes, tick, take_view,
  forward_plan, start_worker, forward_report, handle_report, forward_cancel, take_cancel,
  next_chance, work, finish,
}

-- What a worker hears at its next leg: not a signal that comes too late, while the worker sleeps or
-- waits to send the report. A receiver that was read panics when it is polled again.
abbrev pub heard : Bool → Signal → Signal
heard late silent = silent
heard late taken = taken
heard true pending = silent
heard false pending = pending

abbrev pub signals_of : Signal → Signals
signals_of silent = record { cancel_heard = λ i. false; race = λ i. slept }
signals_of pending = record { cancel_heard = λ i. true; race = λ i. woken }
signals_of taken = record { cancel_heard = λ i. false; race = λ i. crashed }

abbrev pub after_leg : Bool → Signal → Signal
after_leg late silent = silent
after_leg late taken = taken
after_leg true pending = pending
after_leg false pending = taken

module _ {D : Type 0} where
  abbrev pub new_job : ℕ → TradePlan D → Job D
  new_job worker plan = record {
    worker = worker;
    plan = plan;
    place = 0;
    rest = plan.legs;
    signal = silent;
  }

  -- the worker that a cancel request reaches
  abbrev pub signal_jobs : Option ℕ → List (Job D) → List (Job D)
  signal_jobs none jobs = jobs
  signal_jobs (some worker) [] = []
  signal_jobs (some worker) (j ∷ jobs) =
      (if j.worker == worker then record j { signal = pending } else j)
      ∷ signal_jobs (some worker) jobs

  abbrev pub finish_at : ℕ → List (Job D) → Option (TradePlan D × List (Job D))
  finish_at i [] = none
  finish_at zero (j ∷ jobs) = elim j.rest [ [] ↦ some (j.plan, jobs) | leg ∷ legs ↦ none ]
  finish_at (suc i) (j ∷ jobs) = elim (finish_at i jobs) [
    | none ↦ none
    | some (plan, jobs') ↦ some (plan, j ∷ jobs')
  ]

module _ {D : Type 0} ⦃d : Decimal D⦄ where
  abbrev pub after_work :
      Bool
      → Job D
      → List (OrderLeg D)
      → Option (ExecutionReport D)
      → List (ExecutionReport D) × List (Job D)
  after_work late j legs none = ([], [])
  after_work late j legs (some r) =
      (r ∷ [], record j { place = suc j.place; rest = legs; signal = after_leg late j.signal } ∷ [])

  -- The worker's next leg: what it reports, and the worker after it, unless it panics.
  unfoldable pub work_one :
      ℕ → Bool → Job D → List (OrderLeg D) → Option (List (ExecutionReport D) × List (Job D))
  unfolding run_leg
  work_one now late j [] = none
  work_one now late j (leg ∷ legs) =
      some
        (after_work late j legs (run_leg (signals_of (heard late j.signal)) j.plan j.place leg now))

  unfoldable pub work_at :
      ℕ → ℕ → Bool → List (Job D) → Option (List (ExecutionReport D) × List (Job D))
  unfolding work_one
  work_at i now late [] = none
  work_at zero now late (j ∷ jobs) = elim (work_one now late j j.rest) [
    | none ↦ none
    | some (rs, js) ↦ some (rs, js ++ jobs)
  ]
  work_at (suc i) now late (j ∷ jobs) = elim (work_at i now late jobs) [
    | none ↦ none
    | some (rs, jobs') ↦ some (rs, j ∷ jobs')
  ]

module _ {D F : Type 0} ⦃d : Decimal D⦄ where
  abbrev pub on_detected :
      System D F → List (TriView D) → Outcome (StrategyError D) (List (Opportunity D)) → System D F
  on_detected s views (ok ops) = record s {
    views = views;
    chances = ops;
    engine = count_seen s.engine;
  }
  on_detected s views (err e) = record s {
    views = views;
    detecting = false;
    engine = count_seen s.engine;
  }
  on_detected s views panic = record s {
    views = views;
    detecting = false;
    engine = count_seen s.engine;
  }

  abbrev pub detect : System D F → TriView D → List (TriView D) → System D F
  detect s view views =
      on_detected s views (
        detect_triangular_opportunities view s.engine.cfg.fee_map
          s.engine.cfg.limits.min_profit_abs)

  -- the detector reads a view when it is done with the opportunities of the last
  abbrev pub next_view : System D F → List (Opportunity D) → List (TriView D) → Option (System D F)
  next_view s [] (view ∷ views) = if s.detecting then some (detect s view views) else none
  next_view s _ _ = none

  abbrev pub after_chance :
      System D F → List (Opportunity D) → StrategyEngine D F × Bool → System D F
  after_chance s ops (e, true) = record s { engine = e; chances = ops }
  after_chance s ops (e, false) = record s { engine = e; chances = []; detecting = false }

  abbrev pub take_chance : System D F → List (Opportunity D) → String → ℕ → Option (System D F)
  take_chance s [] id now = none
  take_chance s (op ∷ ops) id now =
      some (after_chance s ops (handle_opportunity s.engine op id now))

  -- the forwarder of plans
  abbrev pub pass_plan : System D F → List (TradePlan D) → Option (System D F)
  pass_plan s [] = none
  pass_plan s (plan ∷ plans) =
      if ltb (length s.plans) bound
      then some (record s {
        engine = record s.engine { exec_sent = plans };
        plans = s.plans ++ (plan ∷ []);
      })
      else none

  -- the loop of the execution, with the first lines of the worker that it spawns
  abbrev pub spawned : System D F → TradePlan D → List (TradePlan D) → System D F
  spawned s plan plans = record s {
    plans = plans;
    next_worker = suc s.next_worker;
    jobs = s.jobs ++ (new_job s.next_worker plan ∷ []);
    mock = start_plan s.mock plan.id s.next_worker;
  }

  abbrev pub spawn : System D F → List (TradePlan D) → Option (System D F)
  spawn s [] = none
  spawn s (plan ∷ plans) = some (spawned s plan plans)

  abbrev pub worked_system : System D F → List (ExecutionReport D) → List (Job D) → System D F
  worked_system s rs jobs = record s { responses = s.responses ++ rs; jobs = jobs }

  abbrev pub worked :
      System D F → Option (List (ExecutionReport D) × List (Job D)) → Option (System D F)
  worked s none = none
  worked s (some (rs, jobs)) = some (worked_system s rs jobs)

  abbrev pub finished_system : System D F → TradePlan D → List (Job D) → System D F
  finished_system s plan jobs = record s { jobs = jobs; mock = finish_plan s.mock plan.id }

  abbrev pub finished : System D F → Option (TradePlan D × List (Job D)) → Option (System D F)
  finished s none = none
  finished s (some (plan, jobs)) = some (finished_system s plan jobs)

  -- the forwarder of reports, into a channel without a bound
  abbrev pub pass_report : System D F → List (ExecutionReport D) → Option (System D F)
  pass_report s [] = none
  pass_report s (r ∷ rs) = some (record s { responses = rs; reports = s.reports ++ (r ∷ []) })

  abbrev pub monitor : System D F → List (ExecutionReport D) → Option (System D F)
  monitor s [] = none
  monitor s (r ∷ rs) = some (record s { engine = handle_exec_report s.engine r; reports = rs })

  -- the forwarder of cancel requests
  abbrev pub pass_cancel : System D F → List CancelRequest → Option (System D F)
  pass_cancel s [] = none
  pass_cancel s (c ∷ cs) =
      if ltb (length s.cancels) bound
      then some (record s {
        engine = record s.engine { cancel_sent = cs };
        cancels = s.cancels ++ (c ∷ []);
      })
      else none

  abbrev pub cancelled_system : System D F → CancelRequest → List CancelRequest → System D F
  cancelled_system s c cs = record s {
    cancels = cs;
    mock = on_cancel s.mock c;
    jobs = signal_jobs (find s.mock.cancel_map c.plan_id) s.jobs;
  }

  abbrev pub cancel : System D F → List CancelRequest → Option (System D F)
  cancel s [] = none
  cancel s (c ∷ cs) = some (cancelled_system s c cs)

  -- What an event makes of the system, if it can happen.
  unfoldable pub fire : System D F → Event D → Option (System D F)
  unfolding work_at handle_exec_report scan_timeouts
  fire s (view_comes view) = some (record s { views = s.views ++ (view ∷ []) })
  fire s (tick now) = some (record s { engine = scan_timeouts s.engine now })
  fire s take_view = next_view s s.chances s.views
  fire s (next_chance id now) = take_chance s s.chances id now
  fire s forward_plan = pass_plan s s.engine.exec_sent
  fire s start_worker = spawn s s.plans
  fire s (work i now late) =
      if ltb (length s.responses) bound then worked s (work_at i now late s.jobs) else none
  fire s (finish i) = finished s (finish_at i s.jobs)
  fire s forward_report = pass_report s s.responses
  fire s handle_report = monitor s s.reports
  fire s forward_cancel = pass_cancel s s.engine.cancel_sent
  fire s take_cancel = cancel s s.cancels

  abbrev pub or_same : System D F → Option (System D F) → System D F
  or_same s none = s
  or_same s (some s') = s'

  -- A run; an event that cannot happen is passed over.
  unfoldable pub run_system : System D F → List (Event D) → System D F
  unfolding fire
  run_system s [] = s
  run_system s (ev ∷ evs) = run_system (or_same s (fire s ev)) evs
