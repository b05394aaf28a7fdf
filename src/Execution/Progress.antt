-- ===== src/Execution/Progress.antt =====
-- How far the legs of a plan are filled, and what a report of the worker is.
use arb_core.Common.{
  ℕ, zero, suc, ◌≡◌, ◌⊎◌, inl, inr, refl, sym, subst, some, true, List, [], ◌∷◌, arith,
}
use arb_core.Decimal.{Decimal, AddsToNil, ◌≼◌}
use arb_core.Strategy.Planner.{TradePlan, OrderLeg}
use arb_core.Strategy.Engine.{InFlightPlan, ExecutionReport, filled, cancelled, partially_filled}
use arb_core.Strategy.Engine.Detector.{no_fills}
use arb_core.Strategy.Engine.Monitor.{add_filled, filled_by}
use arb_core.Strategy.Engine.Reports.{AreFilled, Ends}
use arb_core.Execution.Mock.{Signals, run_leg}

abbrev pub IsTaker : {D : Type 0} → OrderLeg D → Type 0
IsTaker leg = leg.is_taker ≡ true

module _ {D : Type 0} ⦃d : Decimal D⦄ where
  open d use {saturating_add}

  -- The first k legs have their quantity, and the others nothing yet.
  abbrev pub Progress : ℕ → List D → List (OrderLeg D) → Type 0
  Progress zero xs legs = xs ≡ no_fills legs
  Progress (suc k) [] legs = ⊥
  Progress (suc k) (x ∷ xs) [] = ⊥
  Progress (suc k) (x ∷ xs) (leg ∷ legs) = (leg.qty ≼ x) × Progress k xs legs

  -- `after` are the legs from the place k on.
  abbrev pub IsFrom : ℕ → List (OrderLeg D) → List (OrderLeg D) → Type 0
  IsFrom zero legs after = legs ≡ after
  IsFrom (suc k) [] after = ⊥
  IsFrom (suc k) (leg ∷ legs) after = IsFrom k legs after

  pub add_filled-Progress :
      (k : ℕ) (xs : List D) (legs after : List (OrderLeg D)) (leg : OrderLeg D)
      → AddsToNil D
      → Progress k xs legs
      → IsFrom k legs (leg ∷ after)
      → Progress (suc k) (add_filled xs k leg.qty) legs
  unfolding add_filled no_fills
  add_filled-Progress zero xs legs after leg adds p f = rw (p, f) (adds leg.qty, refl)
  add_filled-Progress (suc k) [] legs after leg adds p f = elim p [ ]
  add_filled-Progress (suc k) (x ∷ xs) [] after leg adds p f = elim p [ ]
  add_filled-Progress (suc k) (x ∷ xs) (l ∷ legs) after leg adds p f =
      (p.0, add_filled-Progress k xs legs after leg adds p.1 f)

  pub IsFrom-suc :
      (k : ℕ) (legs after : List (OrderLeg D)) (leg : OrderLeg D)
      → IsFrom k legs (leg ∷ after)
      → IsFrom (suc k) legs after
  IsFrom-suc zero legs after leg f = rw f refl
  IsFrom-suc (suc k) [] after leg f = elim f [ ]
  IsFrom-suc (suc k) (l ∷ legs) after leg f = IsFrom-suc k legs after leg f

  pub Progress-AreFilled :
      (k : ℕ) (xs : List D) (legs : List (OrderLeg D))
      → Progress k xs legs
      → IsFrom k legs []
      → AreFilled xs legs
  unfolding no_fills
  Progress-AreFilled zero xs legs p f = rw (p, f) tt
  Progress-AreFilled (suc k) [] legs p f = elim p [ ]
  Progress-AreFilled (suc k) (x ∷ xs) [] p f = elim p [ ]
  Progress-AreFilled (suc k) (x ∷ xs) (l ∷ legs) p f = (p.0, Progress-AreFilled k xs legs p.1 f)

  -- A report of the worker for its leg.
  pub record IsOutcome (plan : TradePlan D) (leg : OrderLeg D) (r : ExecutionReport D)
      : Type 0 where
    pub plan_named : r.plan_id ≡ plan.id
    pub leg_named : r.leg_idx ≡ leg.leg_idx
    pub outcome :
        ((r.status ≡ filled) × (r.filled_qty ≡ leg.qty))
        ⊎ (r.status ≡ cancelled)
        ⊎ (r.status ≡ partially_filled)

  pub run_leg-IsOutcome :
      (signals : Signals) (plan : TradePlan D) (i : ℕ) (leg : OrderLeg D) (now : ℕ)
      (r : ExecutionReport D)
      → run_leg signals plan i leg now ≡ some r
      → IsOutcome plan leg r
  unfolding run_leg
  run_leg-IsOutcome signals plan i leg now r e = ground arith

  pub filled_outcome :
      (plan : TradePlan D) (leg : OrderLeg D) (p : InFlightPlan D) (r : ExecutionReport D)
      → IsOutcome plan leg r
      → ¬ Ends r.status (filled_by p r)
      → (r.status ≡ filled) × (r.filled_qty ≡ leg.qty)
  filled_outcome plan leg p r v h = elim v.outcome [
    | inl w ↦ w
    | inr (inl c) ↦ absurd (h (subst (λ s. Ends s (filled_by p r)) (sym c) tt))
    | inr (inr c) ↦ absurd (h (subst (λ s. Ends s (filled_by p r)) (sym c) tt))
  ]
