-- ===== src/Execution/Life.antt =====
-- The life of a plan: what the engine makes of the reports of its worker.
use arb_core.Common.{
  ℕ, suc, ◌≤◌, ◌<◌, ◌≡◌, inl, inr, refl, sym, subst, true, some, List, [], ◌∷◌, String, arith,
  length, Option-cases,
}
use arb_core.Common.Dict.{find}
use arb_core.Decimal.{Decimal, AddsToNil}
use arb_core.Strategy.Planner.{TradePlan, OrderLeg}
use arb_core.Strategy.Detector.{Opportunity}
use arb_core.Strategy.Plans.Places.{IsIndexed, build_trade_plan-IsIndexed}
use arb_core.Strategy.Engine.Sending.{Sent, fresh_entry}
use arb_core.Strategy.Engine.{StrategyEngine, InFlightPlan}
use arb_core.Strategy.Engine.Monitor.{handle_exec_report, filled_by}
use arb_core.Strategy.Engine.Reports.{AreFilled}
use arb_core.Execution.Mock.{Signals, run_leg, run_legs, run_plan}
use arb_core.Execution.Handling.{handle_reports, IsEnded, late_reports, one_report, kept-IsEnded}
use arb_core.Execution.Progress.{
  Progress, IsFrom, IsFrom-suc, Progress-AreFilled, run_leg-IsOutcome,
}

module _ {D : Type 0} ⦃d : Decimal D⦄ where
  -- The plan ends by the reports for these legs, if it is not yet filled.
  record EndsAll (F : Type 0) (signals : Signals) (clock : ℕ → ℕ) (plan : TradePlan D) (k : ℕ)
      (legs : List (OrderLeg D)) : Type 0 where
    ends :
        (e : StrategyEngine D F) (p : InFlightPlan D)
        → find e.inflight plan.id ≡ some p
        → p.plan ≡ plan
        → Progress k p.filled plan.legs
        → ¬ AreFilled p.filled plan.legs
        → IsEnded e plan.id (handle_reports e (run_legs signals clock plan k legs).0)

  module _ {F : Type 0} where
    legs-IsEnded :
        (signals : Signals) (clock : ℕ → ℕ) (plan : TradePlan D) (k : ℕ) (leg : OrderLeg D)
        (rest : List (OrderLeg D))
        → AddsToNil D
        → IsFrom k plan.legs (leg ∷ rest)
        → leg.leg_idx ≡ k
        → (run_legs signals clock plan k (leg ∷ rest)).1 ≡ true
        → ((run_legs signals clock plan (suc k) rest).1 ≡ true
            → EndsAll F signals clock plan (suc k) rest)
        → (e : StrategyEngine D F) (p : InFlightPlan D) → find e.inflight plan.id ≡ some p
        → p.plan ≡ plan
        → Progress k p.filled plan.legs
        → IsEnded e plan.id (handle_reports e (run_legs signals clock plan k (leg ∷ rest)).0)
    unfolding handle_reports run_legs
    legs-IsEnded signals clock plan k leg rest adds from idx done ih e p at same prog =
        elim (Option-cases (run_leg signals plan k leg (clock k))) [
          | inl panicked ↦ absurd (ground arith)
          | inr (r, e') ↦
              let v = run_leg-IsOutcome signals plan k leg (clock k) r e' in
              let e₁ = handle_exec_report e r in
              rw (e', run_legs)
                (elim (one_report e p plan k leg rest r adds at same prog from idx v) [
                  | inl ended ↦
                      rw (late_reports e₁ signals clock plan (suc k) rest ended.gone) ended
                  | inr kept ↦ kept-IsEnded e e₁ _ p plan k r kept (
                      (ih (ground arith)).ends e₁ (filled_by p r) kept.still same kept.progress
                        kept.short)
                ])
        ]

    rest-EndsAll :
        (signals : Signals) (clock : ℕ → ℕ) (plan : TradePlan D) (k : ℕ) (legs : List (OrderLeg D))
        → AddsToNil D
        → IsFrom k plan.legs legs
        → IsIndexed k legs
        → (run_legs signals clock plan k legs).1 ≡ true
        → EndsAll F signals clock plan k legs
    rest-EndsAll signals clock plan k [] adds from idx done = record {
      ends = λ e p at same prog short.
          absurd (short (Progress-AreFilled k p.filled plan.legs prog from));
    }
    rest-EndsAll signals clock plan k (leg ∷ rest) adds from idx done = record {
      ends = λ e p at same prog short.
          legs-IsEnded signals clock plan k leg rest adds from idx.0 done
            (rest-EndsAll signals clock plan (suc k) rest adds
              (IsFrom-suc k plan.legs rest leg from) idx.1)
            e p at same prog;
    }

    -- Once the engine has sent a plan for an opportunity of at least one leg and at most 256, and has
    -- handled the reports of the execution's worker for it, however the cancel requests come, the
    -- plan is no longer in flight and was counted as executed exactly once, no other plan has left
    -- or entered, and no plan was sent. The worker must not have panicked, and adding a quantity to
    -- nothing must give at least it.
    pub handle_reports-IsEnded :
        (e e' : StrategyEngine D F) (op : Opportunity D) (id : String) (now : ℕ)
        (plan : TradePlan D) (signals : Signals) (clock : ℕ → ℕ)
        → AddsToNil D
        → 0 < length op.legs
        → length op.legs ≤ 256
        → Sent e op id now e' plan
        → (run_plan signals clock plan).1 ≡ true
        → IsEnded e' plan.id (handle_reports e' (run_plan signals clock plan).0)
    unfolding run_plan
    handle_reports-IsEnded e e' op id now plan signals clock adds some_leg few sent done =
        let (idx, len) = build_trade_plan-IsIndexed e.cfg op id now plan few sent.built in
        start plan.legs refl idx (omega arith)
      where
        start :
            (legs : List (OrderLeg D))
            → plan.legs ≡ legs
            → IsIndexed 0 plan.legs
            → 0 < length plan.legs
            → IsEnded e' plan.id (handle_reports e' (run_legs signals clock plan 0 plan.legs).0)
        start [] h idx n = absurd (ground arith)
        start (leg ∷ rest) h idx n =
            let idx' : IsIndexed 0 (leg ∷ rest) = subst (IsIndexed 0) h idx in
            let done' : (run_legs signals clock plan 0 (leg ∷ rest)).1 ≡ true =
              subst (λ ls. (run_legs signals clock plan 0 ls).1 ≡ true) h done in
            subst
              (λ ls. IsEnded e' plan.id (handle_reports e' (run_legs signals clock plan 0 ls).0))
              (sym h)
              (legs-IsEnded signals clock plan 0 leg rest adds h idx'.0 done'
                (rest-EndsAll signals clock plan 1 rest adds (IsFrom-suc 0 plan.legs rest leg h)
                  idx'.1)
                e' (fresh_entry e plan now) sent.tracked refl refl)
