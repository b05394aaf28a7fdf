-- ===== src/Strategy/Engine/Reports.antt =====
-- What an execution report does to the plans in flight.
use mathlib.Core.List.{append-nil}
use arb_core.Common.{
  ◌≡◌, ◌≢◌, ◌↔◌, ◌⊎◌, true, false, none, some, List, [], ◌∷◌, ◌++◌, String, arith, bump, inl, inr,
  Bool-cases, eq_iff, eq_refl,
}
use arb_core.Common.Dict.{find, find-put, find-delete}
use arb_core.Decimal.{Decimal, ◌≼◌}
use arb_core.Strategy.Planner.{OrderLeg}
use arb_core.Strategy.Engine.{
  StrategyEngine, InFlightPlan, ExecutionReport, ExecStatus, new, partially_filled, filled,
  cancelled, rejected, error, send_cancel,
}
use arb_core.Strategy.Engine.Monitor.{
  handle_exec_report, update_plan, ends_plan, filled_by, all_legged, storage_data, persist,
}

module _ {D : Type 0} ⦃d : Decimal D⦄ where
  -- Every leg has its quantity.
  abbrev pub AreFilled : List D → List (OrderLeg D) → Type 0
  AreFilled [] legs = Unit
  AreFilled (x ∷ xs) [] = Unit
  AreFilled (x ∷ xs) (leg ∷ legs) = (leg.qty ≼ x) × AreFilled xs legs

  -- The reports that end a plan: cancelled, rejected and partly filled ones, and a filled one that
  -- leaves no leg short.
  abbrev pub Ends : ExecStatus → InFlightPlan D → Type 0
  Ends filled p = AreFilled p.filled p.plan.legs
  Ends cancelled p = Unit
  Ends rejected p = Unit
  Ends partially_filled p = Unit
  Ends new p = ⊥
  Ends (error reason) p = ⊥

  all_legged_iff :
      (xs : List D) (legs : List (OrderLeg D)) → (all_legged xs legs ≡ true) ↔ AreFilled xs legs
  unfolding all_legged
  all_legged_iff [] legs = ground arith
  all_legged_iff (x ∷ xs) [] = ground arith
  all_legged_iff (x ∷ xs) (leg ∷ legs) = ground (arith, all_legged_iff xs legs)

  pub ends_plan_iff : (s : ExecStatus) (p : InFlightPlan D) → (ends_plan s p ≡ true) ↔ Ends s p
  unfolding ends_plan
  ends_plan_iff filled p = all_legged_iff p.filled p.plan.legs
  ends_plan_iff cancelled p = ground arith
  ends_plan_iff rejected p = ground arith
  ends_plan_iff partially_filled p = ground arith
  ends_plan_iff new p = ground arith
  ends_plan_iff (error reason) p = ground arith

  pub ends_plan-false : (s : ExecStatus) (p : InFlightPlan D) → ¬ Ends s p → ends_plan s p ≡ false
  ends_plan-false s p h = elim (Bool-cases (ends_plan s p)) [
    | inl t ↦ absurd (h ((ends_plan_iff s p).0 t))
    | inr f ↦ f
  ]

  module _ {F : Type 0} where
    -- A report of a plan that is not in flight, so also a late report of an ended one, changes
    -- nothing: no plan, no counter, no message and no stored fill.
    pub late_report :
        (e : StrategyEngine D F) (r : ExecutionReport D)
        → find e.inflight r.plan_id ≡ none
        → handle_exec_report e r ≡ e
    unfolding handle_exec_report
    late_report e r gone =
        rw (gone, handle_exec_report, storage_data) (ground (arith, append-nil e.fills))

    -- What a report leaves of the engine, by whether it ends its plan.
    pub record Reported (e : StrategyEngine D F) (r : ExecutionReport D) (p : InFlightPlan D)
        (e' : StrategyEngine D F) : Type 0 where
      pub ended :
          Ends r.status (filled_by p r)
          → (find e'.inflight r.plan_id ≡ none)
            × (e'.metrics.plans_executed ≡ bump e.metrics.plans_executed)
      pub kept :
          ¬ Ends r.status (filled_by p r)
          → (find e'.inflight r.plan_id ≡ some (filled_by p r))
            × (e'.metrics.plans_executed ≡ e.metrics.plans_executed)
      pub others :
          (other : String) → other ≢ r.plan_id → find e'.inflight other ≡ find e.inflight other
      pub cancels :
          (r.status ≡ rejected) ⊎ (r.status ≡ partially_filled)
          → e.cancel_open ≡ true
          → e'.cancel_sent ≡ e.cancel_sent ++ (record { plan_id = r.plan_id; leg_idx = none } ∷ [])
      pub quiet : r.status ≢ rejected → r.status ≢ partially_filled → e'.cancel_sent ≡ e.cancel_sent
      pub not_sent : e'.exec_sent ≡ e.exec_sent

    update_plan-Reported :
        (e k : StrategyEngine D F) (r : ExecutionReport D) (p : InFlightPlan D)
        → k.inflight ≡ e.inflight
        → k.metrics ≡ e.metrics
        → k.cancel_open ≡ e.cancel_open
        → k.cancel_sent ≡ e.cancel_sent
        → k.exec_sent ≡ e.exec_sent
        → Reported e r p (update_plan k r p)
    unfolding update_plan send_cancel
    update_plan-Reported e k r p h₁ h₂ h₃ h₄ h₅ =
        let p' = filled_by p r in
        let id = r.plan_id in
        record {
          ended = λ en.
              let t = (ends_plan_iff r.status p').1 en in
              ground (arith, find-delete k.inflight id id, eq_refl id);
          kept = λ h.
              let f = ends_plan-false r.status p' h in
              ground (arith, find-put k.inflight id id p', eq_refl id);
          others = λ other h. ground (
            arith,
            find-put k.inflight id other p',
            find-delete k.inflight id other,
            eq_iff other id,
          );
          cancels = λ h o. ground arith;
          quiet = λ h h'. ground arith;
          not_sent = ground arith;
        }

    -- A report of a plan in flight takes the plan out and counts it as executed exactly if it is
    -- cancelled, rejected, partly filled, or filled with every leg then at its quantity; else the
    -- plan stays, with the report's quantity added to its leg. The other plans stay as they are, a
    -- rejected or partly filled report sends one request to cancel all legs of the plan while the
    -- channel is open, no other report sends one, and no plan is sent.
    pub handle_exec_report_lem :
        (e : StrategyEngine D F) (r : ExecutionReport D) (p : InFlightPlan D)
        → find e.inflight r.plan_id ≡ some p
        → Reported e r p (handle_exec_report e r)
    unfolding handle_exec_report
    handle_exec_report_lem e r p at =
        rw (at, handle_exec_report)
          (update_plan-Reported e (persist e r) r p (ground arith) (ground arith) (ground arith)
            (ground arith) (ground arith))
