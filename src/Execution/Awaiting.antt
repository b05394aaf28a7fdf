-- ===== src/Execution/Awaiting.antt =====
-- A plan that waits for the rest of the reports of its worker.
use arb_core.Common.{
  ℕ, suc, ◌≡◌, ◌⊎◌, inl, inr, ap, ◌∙◌, true, none, some, List, [], ◌∷◌, arith, Option-cases,
}
use arb_core.Common.Dict.{find}
use arb_core.Decimal.{Decimal, AddsToNil}
use arb_core.Strategy.Planner.{TradePlan, OrderLeg}
use arb_core.Strategy.Plans.Places.{IsIndexed}
use arb_core.Strategy.Engine.{StrategyEngine, InFlightPlan, ExecutionReport}
use arb_core.Strategy.Engine.Monitor.{handle_exec_report, filled_by}
use arb_core.Strategy.Engine.Reports.{AreFilled, late_report}
use arb_core.Strategy.Engine.Others.{Keeps}
use arb_core.Execution.Mock.{Signals, run_leg, run_legs}
use arb_core.Execution.Progress.{
  Progress, IsFrom, IsOutcome, IsFrom-suc, Progress-AreFilled, run_leg-IsOutcome,
}
use arb_core.Execution.Handling.{one_report}

module _ {D : Type 0} ⦃d : Decimal D⦄ (plan : TradePlan D) where
  -- one outcome for each leg from place k on, in order
  abbrev pub AreOutcomes : ℕ → List (OrderLeg D) → List (ExecutionReport D) → Type 0
  AreOutcomes k [] [] = Unit
  AreOutcomes k (leg ∷ legs) (r ∷ rs) =
      IsOutcome plan leg r × (leg.leg_idx ≡ k) × AreOutcomes (suc k) legs rs
  AreOutcomes k _ _ = ⊥

  pub run_legs-AreOutcomes :
      (signals : Signals) (clock : ℕ → ℕ) (k : ℕ) (legs : List (OrderLeg D))
      → IsIndexed k legs
      → (run_legs signals clock plan k legs).1 ≡ true
      → AreOutcomes k legs (run_legs signals clock plan k legs).0
  unfolding run_legs
  run_legs-AreOutcomes signals clock k [] idx done = tt
  run_legs-AreOutcomes signals clock k (leg ∷ legs) idx done =
      elim (Option-cases (run_leg signals plan k leg (clock k))) [
        | inl panicked ↦ absurd (ground arith)
        | inr (r, e) ↦
            rw (e, run_legs)
              (
                run_leg-IsOutcome signals plan k leg (clock k) r e,
                idx.0,
                run_legs-AreOutcomes signals clock (suc k) legs idx.1 (ground arith),
              )
      ]

  -- With no leg to come, some leg is short.
  abbrev pub IsShort : List (OrderLeg D) → InFlightPlan D → Type 0
  IsShort [] p = ¬ AreFilled p.filled plan.legs
  IsShort (leg ∷ legs) p = Unit

  -- The plan is gone, or filled up to place k.
  abbrev pub Tracks : {F : Type 0} → ℕ → List (OrderLeg D) → StrategyEngine D F → Type 0
  Tracks k legs e =
      (find e.inflight plan.id ≡ none)
      ⊎ ((p : InFlightPlan D) × (find e.inflight plan.id ≡ some p)
          × (p.plan ≡ plan)
          × Progress k p.filled plan.legs
          × IsShort legs p)

  pub IsShort-any :
      (legs : List (OrderLeg D)) (p : InFlightPlan D)
      → ¬ AreFilled p.filled plan.legs
      → IsShort legs p
  IsShort-any [] p h = h
  IsShort-any (leg ∷ legs) p h = tt

  module _ {F : Type 0} where
    pub Tracks-Keeps :
        (k : ℕ) (legs : List (OrderLeg D)) (e e' : StrategyEngine D F)
        → Keeps plan.id e e'
        → Tracks k legs e
        → Tracks k legs e'
    Tracks-Keeps k legs e e' (inr gone) t = inl gone
    Tracks-Keeps k legs e e' (inl same) (inl gone) = inl (same ∙ gone)
    Tracks-Keeps k legs e e' (inl same) (inr (p, at, v, progress, short)) =
        inr (p, same ∙ at, v, progress, short)

    pub Tracks-end :
        (k : ℕ) (e : StrategyEngine D F)
        → IsFrom k plan.legs []
        → Tracks k [] e
        → find e.inflight plan.id ≡ none
    Tracks-end k e from (inl gone) = gone
    Tracks-end k e from (inr (p, at, same, progress, short)) =
        absurd (short (Progress-AreFilled k p.filled plan.legs progress from))

    pub own_report :
        (k : ℕ) (leg : OrderLeg D) (rest : List (OrderLeg D)) (e : StrategyEngine D F)
        (r : ExecutionReport D)
        → AddsToNil D
        → IsFrom k plan.legs (leg ∷ rest)
        → leg.leg_idx ≡ k
        → IsOutcome plan leg r
        → Tracks k (leg ∷ rest) e
        → Tracks (suc k) rest (handle_exec_report e r)
    own_report k leg rest e r adds from idx v (inl gone) =
        let gone' : find e.inflight r.plan_id ≡ none = ap (find e.inflight) v.plan_named ∙ gone in
        inl (rw (late_report e r gone') gone)
    own_report k leg rest e r adds from idx v (inr (p, at, same, progress, short)) =
        elim (one_report e p plan k leg rest r adds at same progress from idx v) [
          | inl ended ↦ inl ended.gone
          | inr kept ↦ inr (
            filled_by p r,
            kept.still,
            same,
            kept.progress,
            IsShort-any rest (filled_by p r) kept.short,
          )
        ]

    -- the reports of the legs from place k on, and what is in flight
    pub record Awaits (k : ℕ) (legs : List (OrderLeg D)) (rs : List (ExecutionReport D))
        (e : StrategyEngine D F) : Type 0 where
      pub from : IsFrom k plan.legs legs
      pub outcomes : AreOutcomes k legs rs
      pub tracks : Tracks k legs e

    -- the plan waits for these reports, at some leg
    pub record IsWaiting (rs : List (ExecutionReport D)) (e : StrategyEngine D F) : Type 0 where
      pub place : ℕ
      pub legs : List (OrderLeg D)
      pub awaits : Awaits place legs rs e

    pub IsWaiting-Keeps :
        (rs : List (ExecutionReport D)) (e e' : StrategyEngine D F)
        → Keeps plan.id e e'
        → IsWaiting rs e
        → IsWaiting rs e'
    IsWaiting-Keeps rs e e' k w = record {
      place = w.place;
      legs = w.legs;
      awaits = record {
        from = w.awaits.from;
        outcomes = w.awaits.outcomes;
        tracks = Tracks-Keeps w.place w.legs e e' k w.awaits.tracks;
      };
    }

    pub Awaits-report :
        (k : ℕ) (legs : List (OrderLeg D)) (r : ExecutionReport D) (rs : List (ExecutionReport D))
        (e : StrategyEngine D F)
        → AddsToNil D
        → Awaits k legs (r ∷ rs) e
        → IsWaiting rs (handle_exec_report e r)
    Awaits-report k [] r rs e adds a = absurd a.outcomes
    Awaits-report k (leg ∷ rest) r rs e adds a =
        let (v, idx, more) = a.outcomes in
        record {
          place = suc k;
          legs = rest;
          awaits = record {
            from = IsFrom-suc k plan.legs rest leg a.from;
            outcomes = more;
            tracks = own_report k leg rest e r adds a.from idx v a.tracks;
          };
        }

    pub Awaits-end :
        (k : ℕ) (legs : List (OrderLeg D)) (e : StrategyEngine D F)
        → Awaits k legs [] e
        → find e.inflight plan.id ≡ none
    Awaits-end k [] e a = Tracks-end k e a.from a.tracks
    Awaits-end k (leg ∷ legs) e a = absurd a.outcomes
