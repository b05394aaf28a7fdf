-- ===== src/System/Pending.antt =====
-- A plan on its way through the system, over each way in which the system can go on with it.
use mathlib.Core.List.{append-nil}
use arb_core.Common.{
  ℕ, suc, ◌≡◌, ◌⊎◌, inl, inr, refl, sym, ap, subst, ◌∙◌, true, Option, none, some, List, [], ◌∷◌,
  ◌++◌, All,
}
use arb_core.Common.Dict.{find}
use arb_core.Decimal.{Decimal, AddsToNil}
use arb_core.Strategy.Planner.{TradePlan, OrderLeg}
use arb_core.Strategy.Engine.{StrategyEngine, InFlightPlan, ExecutionReport}
use arb_core.Strategy.Engine.Monitor.{handle_exec_report}
use arb_core.Strategy.Plans.Places.{IsIndexed}
use arb_core.Execution.Progress.{
  IsTaker, IsFrom, IsFrom-suc, IsOutcome, Progress, Progress-AreFilled,
}
use arb_core.Execution.Awaiting.{IsShort, own_report}
use arb_core.System.Views.{Task, View}
use arb_core.System.Moves.{Moves, stays, expires, works, panics, finishes, handles}

module _ {D : Type 0} ⦃d : Decimal D⦄ where
  module _ (plan : TradePlan D) where
    -- The legs from place k on: those whose reports are under way, and then those that are left.
    abbrev pub Pending : ℕ → List (OrderLeg D) → List (ExecutionReport D) → List (Task D) → Type 0
    Pending k [] (r ∷ rs) ts = ⊥
    Pending k (leg ∷ legs) (r ∷ rs) ts =
        IsOutcome plan leg r × (leg.leg_idx ≡ k) × Pending (suc k) legs rs ts
    Pending k legs [] [] = legs ≡ []
    Pending k legs [] (t ∷ []) =
        (t.plan ≡ plan) × (t.place ≡ k) × (t.rest ≡ legs) × IsIndexed k legs × All IsTaker legs
    Pending k legs [] (t ∷ t' ∷ ts) = ⊥

    -- The entry of the plan is gone, or filled up to place k.
    abbrev pub Entry : ℕ → List (OrderLeg D) → Option (InFlightPlan D) → Type 0
    Entry k legs o =
        (o ≡ none)
        ⊎ ((p : InFlightPlan D) × (o ≡ some p)
            × (p.plan ≡ plan)
            × Progress k p.filled plan.legs
            × IsShort plan legs p)

    pub record IsPending (v : View D) : Type 0 where
      pub place : ℕ
      pub legs : List (OrderLeg D)
      pub from : IsFrom place plan.legs legs
      pub pend : Pending place legs v.reports v.tasks
      pub entered : Entry place legs v.entry

    -- The one task, where the reports under way leave it; what is put there instead is pending too.
    record IsSplit (k : ℕ) (legs : List (OrderLeg D)) (rs : List (ExecutionReport D))
        (xs ys : List (Task D)) (t : Task D) : Type 0 where
      no_left : xs ≡ []
      no_right : ys ≡ []
      place : ℕ
      left : List (OrderLeg D)
      here : Pending place left [] (t ∷ [])
      instead :
          (rs' : List (ExecutionReport D)) (ts : List (Task D))
          → Pending place left rs' ts
          → Pending k legs (rs ++ rs') ts

    Pending-IsSplit :
        (k : ℕ) (legs : List (OrderLeg D)) (rs : List (ExecutionReport D)) (xs ys : List (Task D))
        (t : Task D)
        → Pending k legs rs (xs ++ (t ∷ ys))
        → IsSplit k legs rs xs ys t
    Pending-IsSplit k [] (q ∷ rs) xs ys t p = absurd p
    Pending-IsSplit k (l ∷ legs) (q ∷ rs) xs ys t (o, idx, p) =
        let v = Pending-IsSplit (suc k) legs rs xs ys t p in
        record {
          no_left = v.no_left;
          no_right = v.no_right;
          place = v.place;
          left = v.left;
          here = v.here;
          instead = λ rs' ts h. (o, idx, v.instead rs' ts h);
        }
    Pending-IsSplit k [] [] [] [] t p = record {
      no_left = refl;
      no_right = refl;
      place = k;
      left = [];
      here = p;
      instead = λ rs' ts h. h;
    }
    Pending-IsSplit k (l ∷ legs) [] [] [] t p = record {
      no_left = refl;
      no_right = refl;
      place = k;
      left = l ∷ legs;
      here = p;
      instead = λ rs' ts h. h;
    }
    Pending-IsSplit k [] [] [] (y ∷ ys) t p = absurd p
    Pending-IsSplit k (l ∷ legs) [] [] (y ∷ ys) t p = absurd p
    Pending-IsSplit k [] [] (x ∷ []) ys t p = absurd p
    Pending-IsSplit k (l ∷ legs) [] (x ∷ []) ys t p = absurd p
    Pending-IsSplit k [] [] (x ∷ x' ∷ xs) ys t p = absurd p
    Pending-IsSplit k (l ∷ legs) [] (x ∷ x' ∷ xs) ys t p = absurd p

    one_leg :
        (k : ℕ) (legs : List (OrderLeg D)) (t : Task D) (leg : OrderLeg D)
        (more : List (OrderLeg D)) (r : ExecutionReport D)
        → Pending k legs [] (t ∷ [])
        → t.rest ≡ leg ∷ more
        → IsOutcome t.plan leg r
        → Pending k legs (r ∷ []) (record { plan = t.plan; place = suc t.place; rest = more } ∷ [])
    one_leg k [] t leg more r (same, at, left, idx, takers) e v = cc
    one_leg k (l ∷ legs) t leg more r (same, at, left, (idx, later), takers) e v =
        let both : l ∷ legs ≡ leg ∷ more = sym left ∙ e in
        let first : leg ≡ l = cc in
        (
          subst (λ g. IsOutcome plan g r) first (subst (λ q. IsOutcome q leg r) same v),
          idx,
          (same, ap suc at, cc, later, takers.1),
        )

    first_taker :
        (k : ℕ) (legs : List (OrderLeg D)) (t : Task D) (leg : OrderLeg D)
        (more : List (OrderLeg D))
        → Pending k legs [] (t ∷ [])
        → t.rest ≡ leg ∷ more
        → leg.is_taker ≡ true
    first_taker k [] t leg more (same, at, left, idx, takers) e = cc
    first_taker k (l ∷ legs) t leg more (same, at, left, idx, takers) e =
        let both : l ∷ legs ≡ leg ∷ more = sym left ∙ e in
        let first : l ≡ leg = cc in subst (λ (g : OrderLeg D). g.is_taker ≡ true) first takers.0

    no_leg :
        (k : ℕ) (legs : List (OrderLeg D)) (t : Task D)
        → Pending k legs [] (t ∷ [])
        → t.rest ≡ []
        → Pending k legs [] []
    no_leg k [] t p e = refl
    no_leg k (l ∷ legs) t (same, at, left, idx, takers) e = cc

    -- A report under way is that of the next leg.
    handled-IsPending :
        {F : Type 0} (e : StrategyEngine D F) (v v' : View D) (k : ℕ) (legs : List (OrderLeg D))
        (r : ExecutionReport D) (rs : List (ExecutionReport D))
        → AddsToNil D
        → IsFrom k plan.legs legs
        → Pending k legs (r ∷ rs) v.tasks
        → Entry k legs (find e.inflight plan.id)
        → v'.tasks ≡ v.tasks
        → v'.reports ≡ rs
        → v'.entry ≡ find (handle_exec_report e r).inflight plan.id
        → IsPending v'
    handled-IsPending e v v' k [] r rs adds from p o hts hrs ho = absurd p
    handled-IsPending e v v' k (leg ∷ legs) r rs adds from (out, idx, p) o hts hrs ho = record {
      place = suc k;
      legs = legs;
      from = IsFrom-suc k plan.legs legs leg from;
      pend = rw (hts, hrs) p;
      entered =
          subst (Entry (suc k) legs) (sym ho) (own_report plan k leg legs e r adds from idx out o);
    }

    -- The plan is not lost, whatever the system does.
    pub Moves-IsPending :
        {F : Type 0} (v v' : View D)
        → AddsToNil D
        → Moves F plan.id v v'
        → IsPending v
        → IsPending v'
    Moves-IsPending v v' adds (stays same) p = subst IsPending (sym same) p
    Moves-IsPending v v' adds (expires hts hrs ho) p = record {
      place = p.place;
      legs = p.legs;
      from = p.from;
      pend = rw (hts, hrs) p.pend;
      entered = inl ho;
    }
    Moves-IsPending v v' adds (works xs ys t leg legs r at e out hts hrs ho) p =
        let w =
          Pending-IsSplit p.place p.legs v.reports xs ys t
            (subst (Pending p.place p.legs v.reports) at p.pend) in
        record {
          place = p.place;
          legs = p.legs;
          from = p.from;
          pend =
              rw (hts, hrs, w.no_left, w.no_right)
                (w.instead (r ∷ []) _ (one_leg w.place w.left t leg legs r w.here e out));
          entered = subst (Entry p.place p.legs) (sym ho) p.entered;
        }
    Moves-IsPending v v' adds (panics xs ys t leg legs at e passive hts hrs ho) p =
        let w =
          Pending-IsSplit p.place p.legs v.reports xs ys t
            (subst (Pending p.place p.legs v.reports) at p.pend) in
        let taker = first_taker w.place w.left t leg legs w.here e in cc
    Moves-IsPending v v' adds (finishes xs ys t at e hts hrs ho) p =
        let w =
          Pending-IsSplit p.place p.legs v.reports xs ys t
            (subst (Pending p.place p.legs v.reports) at p.pend) in
        record {
          place = p.place;
          legs = p.legs;
          from = p.from;
          pend =
              rw (hts, hrs, w.no_left, w.no_right, ← append-nil v.reports)
                (w.instead [] [] (no_leg w.place w.left t w.here e));
          entered = subst (Entry p.place p.legs) (sym ho) p.entered;
        }
    Moves-IsPending v v' adds (handles e r rs hr he hts hrs ho) p =
        handled-IsPending e v v' p.place p.legs r rs adds p.from
          (subst (λ q. Pending p.place p.legs q v.tasks) hr p.pend)
          (subst (Entry p.place p.legs) (sym he) p.entered) hts hrs ho

    settled :
        (k : ℕ) (legs : List (OrderLeg D)) (o : Option (InFlightPlan D))
        → Pending k legs [] []
        → IsFrom k plan.legs legs
        → Entry k legs o
        → o ≡ none
    settled k legs o p from (inl gone) = gone
    settled k [] o p from (inr (q, at, same, progress, short)) =
        absurd (short (Progress-AreFilled k q.filled plan.legs progress from))
    settled k (leg ∷ legs) o p from (inr (q, at, same, progress, short)) = cc

    -- With nothing under way the plan is out of flight.
    pub IsPending-end : (v : View D) → v.tasks ≡ [] → v.reports ≡ [] → IsPending v → v.entry ≡ none
    IsPending-end v hts hrs p =
        let pend = subst (λ rs. Pending p.place p.legs rs v.tasks) hrs p.pend in
        settled p.place p.legs v.entry (subst (Pending p.place p.legs []) hts pend) p.from p.entered
