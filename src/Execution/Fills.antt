-- ===== src/Execution/Fills.antt =====
-- What the worker of a plan reports: one report for each leg, whose quantities add up.
use arb_core.Common.{
  ℕ, suc, ◌≡◌, ◌≢◌, ◌⊎◌, inl, inr, refl, Bool, true, false, some, List, [], ◌∷◌, arith,
  Option-cases,
}
use arb_core.Decimal.{Decimal, IsAdditive, nil}
use arb_core.Strategy.Planner.{TradePlan, OrderLeg}
use arb_core.Strategy.Engine.{ExecutionReport, filled, cancelled, partially_filled}
use arb_core.Execution.Mock.{Signals, run_leg, run_legs, run_plan}

module _ {D : Type 0} ⦃d : Decimal D⦄ where
  open d use {add}

  -- A report of this leg, whose quantities make up the leg's.
  pub record IsReportOf (plan : TradePlan D) (leg : OrderLeg D) (r : ExecutionReport D)
      : Type 0 where
    pub plan_named : r.plan_id ≡ plan.id
    pub leg_named : r.leg_idx ≡ leg.leg_idx
    pub accounted : add r.filled_qty r.remaining_qty ≡ leg.qty
    pub complete : r.status ≡ filled → r.filled_qty ≡ leg.qty
    pub empty : r.status ≢ filled → r.filled_qty ≡ nil
    pub final : (r.status ≡ filled) ⊎ (r.status ≡ cancelled) ⊎ (r.status ≡ partially_filled)

  -- The reports follow the legs, in order; fewer of them only if the worker did not end.
  abbrev pub AreReports : TradePlan D → List (OrderLeg D) → List (ExecutionReport D) → Bool → Type 0
  AreReports plan [] [] done = done ≡ true
  AreReports plan [] (r ∷ rs) done = ⊥
  AreReports plan (leg ∷ legs) [] done = done ≡ false
  AreReports plan (leg ∷ legs) (r ∷ rs) done = IsReportOf plan leg r × AreReports plan legs rs done

  module _ ⦃a : IsAdditive D⦄ where
    run_leg-IsReportOf :
        (signals : Signals) (plan : TradePlan D) (i : ℕ) (leg : OrderLeg D) (now : ℕ)
        (r : ExecutionReport D)
        → run_leg signals plan i leg now ≡ some r
        → IsReportOf plan leg r
    unfolding run_leg
    run_leg-IsReportOf signals plan i leg now r e =
        ground (arith, a.add_nil leg.qty, a.nil_add leg.qty)

    run_legs-AreReports :
        (signals : Signals) (clock : ℕ → ℕ) (plan : TradePlan D) (i : ℕ) (legs : List (OrderLeg D))
        → let (rs, done) = run_legs signals clock plan i legs in AreReports plan legs rs done
    unfolding run_legs
    run_legs-AreReports signals clock plan i [] = refl
    run_legs-AreReports signals clock plan i (leg ∷ legs) =
        elim (Option-cases (run_leg signals plan i leg (clock i))) [
          | inl panicked ↦ rw (panicked, run_legs) refl
          | inr (r, e) ↦
              rw (e, run_legs)
                (
                  run_leg-IsReportOf signals plan i leg (clock i) r e,
                  run_legs-AreReports signals clock plan (suc i) legs,
                )
        ]

    -- The worker of a plan sends one report for each leg, in the order of the legs, and fewer only
    -- if it panics. Each names the plan and its leg, and its filled and remaining quantities add up
    -- to the leg's; a leg reported as filled is filled whole, any other not at all, and then it is
    -- reported as cancelled or partly filled.
    pub run_plan-AreReports :
        (signals : Signals) (clock : ℕ → ℕ) (plan : TradePlan D)
        → let (rs, done) = run_plan signals clock plan in AreReports plan plan.legs rs done
    unfolding run_plan
    run_plan-AreReports signals clock plan = run_legs-AreReports signals clock plan 0 plan.legs
