-- ===== src/System/Opened.antt =====
-- What the system holds of a plan from its opportunity on: it is followed to its end.
use arb_core.Common.{
  ℕ, ◌≡◌, ◌⊎◌, inl, inr, refl, sym, subst, ◌∙◌, Bool, true, false, none, List, [], ◌∷◌, String,
  arith, length, eq_refl, All,
}
use arb_core.Decimal.{Decimal, AddsToNil}
use arb_core.Strategy.Config.{aggressive}
use arb_core.Strategy.Detector.{Opportunity}
use arb_core.Strategy.Planner.{TradePlan, OrderLeg, takes}
use arb_core.Strategy.Plans.Places.{
  IsIndexed, build_trade_plan-IsIndexed, build_trade_plan-is_taker, build_trade_plan-id,
}
use arb_core.Strategy.Engine.{StrategyEngine, InFlightPlan}
use arb_core.Strategy.Engine.Detector.{handle_opportunity}
use arb_core.Strategy.Engine.Sending.{Sent, Dropped, fresh_entry, handle_opportunity-Sent}
use arb_core.Execution.Progress.{IsTaker}
use arb_core.Execution.Awaiting.{IsShort}
use arb_core.System.State.{System}
use arb_core.System.Actions.{after_chance}
use arb_core.System.Views.{keep, View, whole, is_task_for, all_tasks, view_of}
use arb_core.System.Moves.{Moves, IsAbsent, Moves-IsAbsent}
use arb_core.System.Pending.{IsPending, Pending, Moves-IsPending, IsPending-end}
use arb_core.System.Ready.{HasThreeLegs}
use arb_core.System.Steps.{sent_same}
use arb_core.System.Chances.{sent_more, handle_opportunity-crashed}

module _ {D : Type 0} ⦃d : Decimal D⦄ where
  -- nothing is known of the plan, or it is on its way
  abbrev pub IsFollowed : String → View D → Type 0
  IsFollowed id v = IsAbsent v ⊎ ((plan : TradePlan D) × (plan.id ≡ id) × IsPending plan v)

  pub Moves-IsFollowed :
      {F : Type 0} (id : String) (v v' : View D)
      → AddsToNil D
      → Moves F id v v'
      → IsFollowed id v
      → IsFollowed id v'
  Moves-IsFollowed id v v' adds m (inl absent) = inl (Moves-IsAbsent id v v' m absent)
  Moves-IsFollowed {F} id v v' adds m (inr (plan, named, p)) =
      inr
        (plan, named, Moves-IsPending plan v v' adds (subst (λ k. Moves F k v v') (sym named) m) p)

  -- with nothing under way, it is out of flight
  pub IsFollowed-end :
      (id : String) (v : View D) → v.tasks ≡ [] → v.reports ≡ [] → IsFollowed id v → v.entry ≡ none
  IsFollowed-end id v hts hrs (inl absent) = absent.no_entry
  IsFollowed-end id v hts hrs (inr (plan, named, p)) = IsPending-end plan v hts hrs p

  whole-Pending :
      (plan : TradePlan D) (legs : List (OrderLeg D))
      → plan.legs ≡ legs
      → IsIndexed 0 legs
      → All IsTaker legs
      → Pending plan 0 legs [] (whole plan ∷ [])
  whole-Pending plan [] e idx takers = (refl, refl, e, idx, takers)
  whole-Pending plan (leg ∷ legs) e idx takers = (refl, refl, e, idx, takers)

  some_left :
      (plan : TradePlan D) (legs : List (OrderLeg D)) (p : InFlightPlan D)
      → length legs ≡ 3
      → IsShort plan legs p
  some_left plan [] p h = absurd (ground arith)
  some_left plan (leg ∷ legs) p h = tt

  module _ {F : Type 0} where
    Sent-IsPending :
        (s : System D F) (op : Opportunity D) (id : String) (now : ℕ) (e' : StrategyEngine D F)
        (plan : TradePlan D)
        → s.engine.cfg.aggression ≡ aggressive
        → HasThreeLegs op
        → IsAbsent (view_of plan.id s)
        → Sent s.engine op id now e' plan
        → IsPending plan (view_of plan.id (record s { engine = e' }))
    Sent-IsPending s op id now e' plan taking three absent sent =
        let cfg = s.engine.cfg in
        let (idx, len) = build_trade_plan-IsIndexed cfg op id now plan (omega arith) sent.built in
        let takers =
          subst (λ a. All (λ (g : OrderLeg D). g.is_taker ≡ takes a) plan.legs) taking
            (build_trade_plan-is_taker cfg op id now plan sent.built) in
        let tasks : keep (is_task_for plan.id) (all_tasks (record s { engine = e' }))
            ≡ whole plan ∷ [] =
          sent_more plan.id s e' plan sent.sent ∙ ground (arith, absent.no_task, eq_refl plan.id) in
        record {
          place = 0;
          legs = plan.legs;
          from = refl;
          pend = rw (tasks, absent.no_report) (whole-Pending plan plan.legs refl idx takers);
          entered = inr (
            fresh_entry s.engine plan now,
            sent.tracked,
            refl,
            refl,
            some_left plan plan.legs (fresh_entry s.engine plan now) (len ∙ three),
          );
        }

    -- an opportunity with the identity of the plan
    pub own_chance-IsFollowed :
        (s : System D F) (op : Opportunity D) (ops : List (Opportunity D)) (id : String) (now : ℕ)
        → s.engine.cfg.aggression ≡ aggressive
        → HasThreeLegs op
        → IsAbsent (view_of id s)
        → IsFollowed id (view_of id (after_chance s ops (handle_opportunity s.engine op id now)))
    own_chance-IsFollowed s op ops id now taking three absent =
        go (handle_opportunity s.engine op id now) refl
      where
        dropped :
            (e' : StrategyEngine D F)
            → Dropped s.engine e'
            → IsFollowed id (view_of id (record s { engine = e' }))
        dropped e' v = inl (record {
          no_task = sent_same id s e' v.not_sent ∙ absent.no_task;
          no_report = absent.no_report;
          no_entry = v.no_new id absent.no_entry;
        })

        go :
            (r : StrategyEngine D F × Bool)
            → handle_opportunity s.engine op id now ≡ r
            → IsFollowed id (view_of id (after_chance s ops r))
        go (e', true) h = elim (handle_opportunity-Sent s.engine e' op id now h) [
          | inl v ↦ dropped e' v
          | inr (plan, v) ↦
              let named = build_trade_plan-id s.engine.cfg op id now plan v.built in
              let there = subst (λ k. IsAbsent (view_of k s)) (sym named) absent in
              inr (
                plan,
                named,
                subst (λ k. IsPending plan (view_of k (record s { engine = e' }))) named
                    (Sent-IsPending s op id now e' plan taking three there v),
              )
        ]
        go (e', false) h =
            let same = handle_opportunity-crashed s.engine e' op id now h in
            subst (λ (e : StrategyEngine D F). IsFollowed id (view_of id (record s { engine = e })))
              (sym same) (inl absent)
