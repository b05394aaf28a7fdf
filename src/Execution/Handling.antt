-- ===== src/Execution/Handling.antt =====
-- What the engine's monitor makes of one report of a worker, and of reports that come late.
use arb_core.Common.{
  ℕ, suc, ◌≡◌, ◌≢◌, ◌⊎◌, inl, inr, refl, sym, ap, subst, ◌∙◌, none, some, List, [], ◌∷◌, String,
  Option-cases, Bool-cases, bump,
}
use arb_core.Common.Dict.{find}
use arb_core.Decimal.{Decimal, AddsToNil}
use arb_core.Strategy.Planner.{TradePlan, OrderLeg}
use arb_core.Strategy.Engine.{StrategyEngine, InFlightPlan, ExecutionReport}
use arb_core.Strategy.Engine.Monitor.{handle_exec_report, ends_plan, filled_by}
use arb_core.Strategy.Engine.Reports.{
  AreFilled, Ends, late_report, handle_exec_report_lem, ends_plan_iff,
}
use arb_core.Execution.Mock.{Signals, run_leg, run_legs}
use arb_core.Execution.Progress.{
  Progress, IsFrom, IsOutcome, add_filled-Progress, run_leg-IsOutcome, filled_outcome,
}

module _ {D : Type 0} ⦃d : Decimal D⦄ where
  module _ {F : Type 0} where
    -- what the reports of the engine's monitor do, one after the other
    unfoldable pub handle_reports :
        StrategyEngine D F → List (ExecutionReport D) → StrategyEngine D F
    unfolding handle_exec_report
    handle_reports e [] = e
    handle_reports e (r ∷ rs) = handle_reports (handle_exec_report e r) rs

    -- The plan is out of flight and was counted once; the others are as they were.
    pub record IsEnded (e : StrategyEngine D F) (plan_id : String) (e' : StrategyEngine D F)
        : Type 0 where
      pub gone : find e'.inflight plan_id ≡ none
      pub counted : e'.metrics.plans_executed ≡ bump e.metrics.plans_executed
      pub others :
          (other : String) → other ≢ plan_id → find e'.inflight other ≡ find e.inflight other
      pub not_sent : e'.exec_sent ≡ e.exec_sent

  module _ {F : Type 0} where
    pub late_reports :
        (e : StrategyEngine D F) (signals : Signals) (clock : ℕ → ℕ) (plan : TradePlan D) (k : ℕ)
        (legs : List (OrderLeg D))
        → find e.inflight plan.id ≡ none
        → handle_reports e (run_legs signals clock plan k legs).0 ≡ e
    unfolding handle_reports run_legs
    late_reports e signals clock plan k [] gone = refl
    late_reports e signals clock plan k (leg ∷ legs) gone =
        elim (Option-cases (run_leg signals plan k leg (clock k))) [
          | inl panicked ↦ rw (panicked, run_legs) refl
          | inr (r, e') ↦
              let v = run_leg-IsOutcome signals plan k leg (clock k) r e' in
              let gone' : find e.inflight r.plan_id ≡ none =
                ap (find e.inflight) v.plan_named ∙ gone in
              rw (e', run_legs)
                (ap (λ b. handle_reports b (run_legs signals clock plan (suc k) legs).0)
                    (late_report e r gone')
                  ∙ late_reports e signals clock plan (suc k) legs gone)
        ]

    -- What one report leaves of the engine, for the rest of the reports.
    pub record IsKept (e : StrategyEngine D F) (p : InFlightPlan D) (plan : TradePlan D) (k : ℕ)
        (r : ExecutionReport D) (e' : StrategyEngine D F) : Type 0 where
      pub still : find e'.inflight plan.id ≡ some (filled_by p r)
      pub progress : Progress (suc k) (filled_by p r).filled plan.legs
      pub short : ¬ AreFilled (filled_by p r).filled plan.legs
      pub uncounted : e'.metrics.plans_executed ≡ e.metrics.plans_executed
      pub others :
          (other : String) → other ≢ plan.id → find e'.inflight other ≡ find e.inflight other
      pub not_sent : e'.exec_sent ≡ e.exec_sent

    pub one_report :
        (e : StrategyEngine D F) (p : InFlightPlan D) (plan : TradePlan D) (k : ℕ)
        (leg : OrderLeg D) (rest : List (OrderLeg D)) (r : ExecutionReport D)
        → AddsToNil D
        → find e.inflight plan.id ≡ some p
        → p.plan ≡ plan
        → Progress k p.filled plan.legs
        → IsFrom k plan.legs (leg ∷ rest)
        → leg.leg_idx ≡ k
        → IsOutcome plan leg r
        → IsEnded e plan.id (handle_exec_report e r) ⊎ IsKept e p plan k r (handle_exec_report e r)
    one_report e p plan k leg rest r adds at same prog from idx v =
        let at' : find e.inflight r.plan_id ≡ some p = ap (find e.inflight) v.plan_named ∙ at in
        let rep = handle_exec_report_lem e r p at' in
        let name = v.plan_named in
        let e' = handle_exec_report e r in
        elim (Bool-cases (ends_plan r.status (filled_by p r))) [
          | inl ends ↦
              let (gone, counted) = rep.ended ((ends_plan_iff r.status (filled_by p r)).0 ends) in
              inl (record {
                gone = ap (find e'.inflight) (sym name) ∙ gone;
                counted = counted;
                others = λ other h. rep.others other (λ q. h (q ∙ name));
                not_sent = rep.not_sent;
              })
          | inr stays ↦
              let not_ends : ¬ Ends r.status (filled_by p r) =
                λ h. cc ((ends_plan_iff r.status (filled_by p r)).1 h) in
              let (kept, uncounted) = rep.kept not_ends in
              let (is_filled, whole_qty) = filled_outcome plan leg p r v not_ends in
              let xs = (filled_by p r).filled in
              inr (record {
                still = ap (find e'.inflight) (sym name) ∙ kept;
                progress =
                    rw (v.leg_named ∙ idx, whole_qty)
                      (add_filled-Progress k p.filled plan.legs rest leg adds prog from);
                short = λ all. not_ends (
                    subst (λ s. Ends s (filled_by p r)) (sym is_filled)
                      (subst (λ (q : TradePlan D). AreFilled xs q.legs) (sym same) all));
                uncounted = uncounted;
                others = λ other h. rep.others other (λ q. h (q ∙ name));
                not_sent = rep.not_sent;
              })
        ]

    pub kept-IsEnded :
        (e e₁ e₂ : StrategyEngine D F) (p : InFlightPlan D) (plan : TradePlan D) (k : ℕ)
        (r : ExecutionReport D)
        → IsKept e p plan k r e₁
        → IsEnded e₁ plan.id e₂
        → IsEnded e plan.id e₂
    kept-IsEnded e e₁ e₂ p plan k r kept v = record {
      gone = v.gone;
      counted = v.counted ∙ ap bump kept.uncounted;
      others = λ other h. v.others other h ∙ kept.others other h;
      not_sent = v.not_sent ∙ kept.not_sent;
    }
