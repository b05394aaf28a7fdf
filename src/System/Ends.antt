-- ===== src/System/Ends.antt =====
-- What each event of the tasks of the system does to the work that is left.
use arb_core.Common.{
  ℕ, ◌+◌, ◌*◌, ◌≤◌, ◌<◌, ◌≡◌, inl, inr, refl, ap, subst, Bool, true, false, Option, none, some,
  List, [], ◌∷◌, ◌++◌, String, Outcome, ok, err, panic, arith, length, length-append, Bool-cases,
  All,
}
use arb_core.Common.Dict.{find}
use arb_core.Decimal.{Decimal}
use arb_core.MarketData.Triangle.{TriView}
use arb_core.Strategy.Config.{StrategyError}
use arb_core.Strategy.Detector.{Opportunity, detect_triangular_opportunities}
use arb_core.Strategy.Planner.{TradePlan, OrderLeg}
use arb_core.Strategy.Engine.{StrategyEngine, ExecutionReport, CancelRequest}
use arb_core.Strategy.Engine.Detector.{handle_opportunity}
use arb_core.Strategy.Engine.Monitor.{handle_exec_report}
use arb_core.Execution.Mock.{run_leg}
use arb_core.System.State.{System, Job}
use arb_core.System.Actions.{
  heard, next_view, detect, on_detected, take_chance, after_chance, pass_plan, spawn, spawned,
  worked, worked_system, finished, finished_system, pass_report, monitor, pass_cancel, cancel,
  cancelled_system, new_job, after_work, signals_of,
}
use arb_core.System.Works.{IsWork, IsFinish}
use arb_core.System.Ready.{HasThreeLegs, Fits, detect-Fits}
use arb_core.System.Load.{
  sum_of, sum_of-append, job_load, plan_load, engine_load, load, signal_jobs-load,
  handle_exec_report-load, handle_opportunity-load,
}

module _ {D : Type 0} where
  -- the workers around one
  middle-load :
      (before js after jobs : List (Job D))
      → jobs ≡ before ++ (js ++ after)
      → sum_of job_load jobs ≡ sum_of job_load before + (sum_of job_load js + sum_of job_load after)
  middle-load before js after jobs e =
      rw (e, sum_of-append job_load before (js ++ after), sum_of-append job_load js after) refl

module _ {D : Type 0} ⦃d : Decimal D⦄ where
  after_work-load :
      (late : Bool) (j : Job D) (legs : List (OrderLeg D)) (o : Option (ExecutionReport D))
      → sum_of job_load (after_work late j legs o).1 + 4 * length (after_work late j legs o).0
        ≤ 5 + 5 * length legs
  after_work-load late j legs none = omega arith
  after_work-load late j legs (some r) = omega arith

module _ {D F : Type 0} ⦃d : Decimal D⦄ where
  detected-load :
      (s : System D F) (view : TriView D) (views : List (TriView D))
      (r : Outcome (StrategyError D) (List (Opportunity D)))
      → Fits 2 r
      → s.chances ≡ []
      → s.views ≡ view ∷ views
      → load (on_detected s views r) < load s
  detected-load s view views (ok ops) f e h = rw (e, h) (omega (arith, f.0))
  detected-load s view views (err b) f e h = rw (e, h) (omega arith)
  detected-load s view views panic f e h = rw (e, h) (omega arith)

  pub view-load :
      (s s' : System D F) (ops : List (Opportunity D)) (views : List (TriView D))
      → s.chances ≡ ops
      → s.views ≡ views
      → next_view s ops views ≡ some s'
      → load s' < load s
  view-load s s' [] [] e v h = cc
  view-load s s' (op ∷ ops) [] e v h = cc
  view-load s s' (op ∷ ops) (view ∷ views) e v h = cc
  view-load s s' [] (view ∷ views) e v h = elim (Bool-cases s.detecting) [
    | inl alive ↦
        let fees = s.engine.cfg.fee_map in
        let min = s.engine.cfg.limits.min_profit_abs in
        let same : s' ≡ detect s view views = ground arith in
        rw same (
          detected-load s view views (detect_triangular_opportunities view fees min)
            (detect-Fits view fees min) e v)
    | inr dead ↦ absurd (ground arith)
  ]

  chanced-load :
      (s : System D F) (op : Opportunity D) (ops : List (Opportunity D))
      (r : StrategyEngine D F × Bool)
      → s.chances ≡ op ∷ ops
      → engine_load r.0 ≤ engine_load s.engine + 18
      → load (after_chance s ops r) < load s
  chanced-load s op ops (e, true) h le = rw h (omega arith)
  chanced-load s op ops (e, false) h le = rw h (omega arith)

  pub chance-load :
      (s s' : System D F) (ops : List (Opportunity D)) (id : String) (now : ℕ)
      → All HasThreeLegs s.chances
      → s.chances ≡ ops
      → take_chance s ops id now ≡ some s'
      → load s' < load s
  chance-load s s' [] id now three e h = cc
  chance-load s s' (op ∷ ops) id now three e h =
      let r = handle_opportunity s.engine op id now in
      let same : s' ≡ after_chance s ops r = cc in
      rw same (
        chanced-load s op ops r e
          (handle_opportunity-load s.engine op id now (subst (All HasThreeLegs) e three).0))

  pub plan-load :
      (s s' : System D F) (sent : List (TradePlan D))
      → s.engine.exec_sent ≡ sent
      → pass_plan s sent ≡ some s'
      → load s' < load s
  plan-load s s' [] e h = cc
  plan-load s s' (plan ∷ rest) e h =
      let after : System D F = record s {
        engine = record s.engine { exec_sent = rest };
        plans = s.plans ++ (plan ∷ []);
      } in
      let same : s' ≡ after = ground arith in
      rw (same, e) (omega (arith, sum_of-append (plan_load 2) s.plans (plan ∷ [])))

  pub spawn-load :
      (s s' : System D F) (plans : List (TradePlan D))
      → s.plans ≡ plans
      → spawn s plans ≡ some s'
      → load s' < load s
  spawn-load s s' [] e h = cc
  spawn-load s s' (plan ∷ rest) e h =
      let same : s' ≡ spawned s plan rest = cc in
      rw (same, e) (omega (arith, sum_of-append job_load s.jobs (new_job s.next_worker plan ∷ [])))

  pub work-load :
      (s s' : System D F) (now : ℕ) (late : Bool)
      (r : Option (List (ExecutionReport D) × List (Job D)))
      → ((rs : List (ExecutionReport D)) (jobs : List (Job D))
          → r ≡ some (rs, jobs)
          → IsWork now late s.jobs rs jobs)
      → worked s r ≡ some s'
      → load s' < load s
  work-load s s' now late none v h = cc
  work-load s s' now late (some (rs, jobs)) v h =
      let w = v rs jobs refl in
      let same : s' ≡ worked_system s rs jobs = cc in
      let o = run_leg (signals_of (heard late w.job.signal)) w.job.plan w.job.place w.leg now in
      let were = middle-load w.before (w.job ∷ []) w.after s.jobs w.were in
      let are = middle-load w.before w.instead w.after jobs w.are in
      let given =
        subst
          (λ (x : List (ExecutionReport D) × List (Job D)).
            sum_of job_load x.1 + 4 * length x.0 ≤ 5 + 5 * length w.legs)
          w.outcome (after_work-load late w.job w.legs o) in
      let left = ap length w.at_leg in rw same (omega (arith, length-append s.responses rs))

  pub finish-load :
      (s s' : System D F) (r : Option (TradePlan D × List (Job D)))
      → ((plan : TradePlan D) (jobs : List (Job D)) → r ≡ some (plan, jobs) → IsFinish s.jobs jobs)
      → finished s r ≡ some s'
      → load s' < load s
  finish-load s s' none v h = cc
  finish-load s s' (some (plan, jobs)) v h =
      let w = v plan jobs refl in
      let same : s' ≡ finished_system s plan jobs = cc in
      let were = middle-load w.before (w.job ∷ []) w.after s.jobs w.were in
      let are = middle-load w.before [] w.after jobs w.are in rw same (omega arith)

  pub report-load :
      (s s' : System D F) (rs : List (ExecutionReport D))
      → s.responses ≡ rs
      → pass_report s rs ≡ some s'
      → load s' < load s
  report-load s s' [] e h = cc
  report-load s s' (r ∷ rs) e h =
      let same : s' ≡ record s { responses = rs; reports = s.reports ++ (r ∷ []) } = cc in
      rw (same, e) (omega (arith, length-append s.reports (r ∷ [])))

  pub monitor-load :
      (s s' : System D F) (rs : List (ExecutionReport D))
      → s.reports ≡ rs
      → monitor s rs ≡ some s'
      → load s' < load s
  monitor-load s s' [] e h = cc
  monitor-load s s' (r ∷ rs) e h =
      let same : s' ≡ record s { engine = handle_exec_report s.engine r; reports = rs } = cc in
      rw (same, e) (omega (arith, handle_exec_report-load s.engine r))

  pub pass_cancel-load :
      (s s' : System D F) (cs : List CancelRequest)
      → s.engine.cancel_sent ≡ cs
      → pass_cancel s cs ≡ some s'
      → load s' < load s
  pass_cancel-load s s' [] e h = cc
  pass_cancel-load s s' (c ∷ cs) e h =
      let after : System D F = record s {
        engine = record s.engine { cancel_sent = cs };
        cancels = s.cancels ++ (c ∷ []);
      } in
      let same : s' ≡ after = ground arith in
      rw (same, e) (omega (arith, length-append s.cancels (c ∷ [])))

  pub cancel-load :
      (s s' : System D F) (cs : List CancelRequest)
      → s.cancels ≡ cs
      → cancel s cs ≡ some s'
      → load s' < load s
  cancel-load s s' [] e h = cc
  cancel-load s s' (c ∷ cs) e h =
      let same : s' ≡ cancelled_system s c cs = cc in
      rw (same, e) (omega (arith, signal_jobs-load (find s.mock.cancel_map c.plan_id) s.jobs))
