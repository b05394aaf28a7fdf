-- ===== src/Execution/Interleaved.antt =====
-- The life of a plan among the other turns of the engine's two tasks.
use arb_core.Common.{
  ℕ, ◌≤◌, ◌<◌, ◌≡◌, ◌≢◌, inl, inr, refl, sym, ap, subst, ◌∙◌, Bool, true, false, none, List, [],
  ◌∷◌, String, arith, length, Bool-cases, if◌then◌else◌, str_eq, eq_iff,
}
use arb_core.Common.Dict.{find}
use arb_core.Decimal.{Decimal, AddsToNil}
use arb_core.Strategy.Planner.{TradePlan, OrderLeg}
use arb_core.Strategy.Detector.{Opportunity}
use arb_core.Strategy.Plans.Places.{build_trade_plan-IsIndexed}
use arb_core.Strategy.Engine.{StrategyEngine, ExecutionReport}
use arb_core.Strategy.Engine.Detector.{handle_view}
use arb_core.Strategy.Engine.Monitor.{handle_exec_report, scan_timeouts}
use arb_core.Strategy.Engine.Sending.{Sent, fresh_entry}
use arb_core.Strategy.Engine.Loops.{
  Turn, view, incoming, tick, views_closed, reports_closed, start, take_turn, run_tasks,
}
use arb_core.Strategy.Engine.Deadline.{Undisturbed}
use arb_core.Strategy.Engine.Others.{
  scan_timeouts-Keeps, handle_exec_report-Keeps, handle_view-find,
}
use arb_core.Execution.Mock.{Signals, run_plan}
use arb_core.Execution.Awaiting.{
  AreOutcomes, run_legs-AreOutcomes, IsShort, IsWaiting, IsWaiting-Keeps, Awaits-report, Awaits-end,
}

module _ {D : Type 0} where
  -- the reports of a plan among the turns
  abbrev pub reports_for : String → List (Turn D) → List (ExecutionReport D)
  reports_for id [] = []
  reports_for id (incoming r ∷ turns) =
      if str_eq id r.plan_id then r ∷ reports_for id turns else reports_for id turns
  reports_for id (_ ∷ turns) = reports_for id turns

module _ {D : Type 0} ⦃d : Decimal D⦄ (plan : TradePlan D) where
  module _ {F : Type 0} where
    run_tasks-gone :
        (e : StrategyEngine D F) (detecting : Bool) (turns : List (Turn D))
        → AddsToNil D
        → Undisturbed plan.id turns
        → IsWaiting plan (reports_for plan.id turns) e
        → find
            (run_tasks
              (record { engine = e; detecting = detecting; monitoring = true })
              turns).engine.inflight
            plan.id
          ≡ none
    unfolding run_tasks take_turn
    run_tasks-gone e detecting [] adds u w = Awaits-end plan w.place w.legs e w.awaits
    run_tasks-gone e true (view tv env ∷ turns) adds (other, u) w =
        let kept = inl (handle_view-find e tv env plan.id other) in
        let e' = (handle_view e tv 0 env).0 in
        run_tasks-gone e' (handle_view e tv 0 env).1 turns adds u
          (IsWaiting-Keeps plan (reports_for plan.id turns) e e' kept w)
    run_tasks-gone e false (view tv env ∷ turns) adds (other, u) w =
        run_tasks-gone e false turns adds u w
    run_tasks-gone e detecting (incoming r ∷ turns) adds u w =
        let rs = reports_for plan.id turns in
        let as_is = λ (b : Bool). if b then r ∷ rs else rs in
        elim (Bool-cases (str_eq plan.id r.plan_id)) [
          | inl own ↦
              let w' : IsWaiting plan (r ∷ rs) e =
                subst (λ xs. IsWaiting plan xs e) (ap as_is own) w in
              run_tasks-gone (handle_exec_report e r) detecting turns adds u
                (Awaits-report plan w'.place w'.legs r rs e adds w'.awaits)
          | inr alien ↦
              let w' : IsWaiting plan rs e = subst (λ xs. IsWaiting plan xs e) (ap as_is alien) w in
              let differ : plan.id ≢ r.plan_id =
                λ q. cc (sym alien ∙ (eq_iff plan.id r.plan_id).1 q) in
              run_tasks-gone (handle_exec_report e r) detecting turns adds u (
                IsWaiting-Keeps plan rs e (handle_exec_report e r)
                  (handle_exec_report-Keeps e r plan.id differ) w')
        ]
    run_tasks-gone e detecting (tick now ∷ turns) adds u w =
        run_tasks-gone (scan_timeouts e now) detecting turns adds u (
          IsWaiting-Keeps plan (reports_for plan.id turns) e (scan_timeouts e now)
            (scan_timeouts-Keeps e now plan.id) w)
    run_tasks-gone e detecting (views_closed ∷ turns) adds u w =
        run_tasks-gone e false turns adds u w
    run_tasks-gone e detecting (reports_closed ∷ turns) adds u w = absurd u

module _ {D : Type 0} ⦃d : Decimal D⦄ {F : Type 0} where
  -- A sent plan leaves the flight among any other turns. From the engine that has sent a plan for an
  -- opportunity of at least one leg and at most 256, let the two tasks take any turns, with views,
  -- reports of other plans and scans for timeouts in between, such that the reports of this plan
  -- among them are those of its worker, in order; however cancel requests reach the worker. Then the
  -- plan is no longer in flight. Its identity must not be given again, the monitor's channel must
  -- stay open, the worker must not have panicked, and adding a quantity to nothing must give at
  -- least it.
  pub run_tasks-completes :
      (e e' : StrategyEngine D F) (op : Opportunity D) (id : String) (now : ℕ) (plan : TradePlan D)
      (signals : Signals) (clock : ℕ → ℕ) (turns : List (Turn D))
      → AddsToNil D
      → 0 < length op.legs
      → length op.legs ≤ 256
      → Sent e op id now e' plan
      → (run_plan signals clock plan).1 ≡ true
      → reports_for plan.id turns ≡ (run_plan signals clock plan).0
      → Undisturbed plan.id turns
      → find (run_tasks (start e') turns).engine.inflight plan.id ≡ none
  unfolding run_plan start
  run_tasks-completes e e' op id now plan signals clock turns adds some_leg few sent done same u =
      let (idx, len) = build_trade_plan-IsIndexed e.cfg op id now plan few sent.built in
      let outcomes = run_legs-AreOutcomes plan signals clock 0 plan.legs idx done in
      let n : 0 < length plan.legs = omega arith in
      run_tasks-gone plan e' true turns adds u (record {
        place = 0;
        legs = plan.legs;
        awaits = record {
          from = refl;
          outcomes = subst (AreOutcomes plan 0 plan.legs) (sym same) outcomes;
          tracks = inr (fresh_entry e plan now, sent.tracked, refl, refl, not_short plan.legs n);
        };
      })
    where
      not_short :
          (legs : List (OrderLeg D)) → 0 < length legs → IsShort plan legs (fresh_entry e plan now)
      not_short [] n = absurd (ground arith)
      not_short (leg ∷ legs) n = tt
