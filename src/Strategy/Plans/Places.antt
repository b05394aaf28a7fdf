-- ===== src/Strategy/Plans/Places.antt =====
-- The legs of a plan carry their places, as far as an index of eight bits reaches.
use arb_core.Common.{
  ℕ, suc, ◌+◌, ◌≤◌, ◌≡◌, refl, subst, ap, List, [], ◌∷◌, String, arith, ok, ◌>>=◌, bind-eq-ok,
  length, All,
}
use arb_core.Common.Dict.{find}
use arb_core.Decimal.{Decimal}
use arb_core.Strategy.Config.{StrategyConfig}
use arb_core.Strategy.Detector.{Opportunity, LegEstimate}
use arb_core.Strategy.Planner.{
  OrderLeg, TradePlan, takes, fit_qty, order_leg, plan_of, build_leg, build_legs, build_trade_plan,
}

-- Each leg carries its place.
abbrev pub IsIndexed : {D : Type 0} → ℕ → List (OrderLeg D) → Type 0
IsIndexed k [] = Unit
IsIndexed k (leg ∷ legs) = (leg.leg_idx ≡ k) × IsIndexed (suc k) legs

module _ {D : Type 0} ⦃d : Decimal D⦄ {F : Type 0} (cfg : StrategyConfig D F) where
  build_leg-leg_idx :
      (idx : ℕ) (l : LegEstimate D) (g : OrderLeg D)
      → suc idx ≤ 256
      → build_leg cfg idx l ≡ ok g
      → g.leg_idx ≡ idx
  unfolding build_leg
  build_leg-leg_idx idx l g h e =
      let (q, e', e'') =
        bind-eq-ok (fit_qty (find cfg.lot_rules l.symbol) l) (order_leg cfg idx l) e in
      ground arith

  build_legs-IsIndexed :
      (idx : ℕ) (ls : List (LegEstimate D)) (gs : List (OrderLeg D))
      → idx + length ls ≤ 256
      → build_legs cfg idx ls ≡ ok gs
      → IsIndexed idx gs × (length gs ≡ length ls)
  unfolding build_legs
  build_legs-IsIndexed idx [] gs h e = let same : gs ≡ [] = ground arith in rw same (tt, refl)
  build_legs-IsIndexed idx (l ∷ ls) gs h e =
      let (g, e', rest) =
        bind-eq-ok (build_leg cfg idx l)
          (λ leg. build_legs cfg (idx + 1) ls >>= λ legs. ok (leg ∷ legs)) e in
      let (gs', e'', f) = bind-eq-ok (build_legs cfg (idx + 1) ls) (λ legs. ok (g ∷ legs)) rest in
      let same : gs ≡ g ∷ gs' = ground arith in
      let next : idx + 1 ≡ suc idx = omega arith in
      let (ih, len) = build_legs-IsIndexed (idx + 1) ls gs' (omega arith) e'' in
      rw same (
        (build_leg-leg_idx idx l g (omega arith) e', subst (λ k. IsIndexed k gs') next ih),
        ap suc len,
      )

  pub build_trade_plan-IsIndexed :
      (op : Opportunity D) (id : String) (now : ℕ) (plan : TradePlan D)
      → length op.legs ≤ 256
      → build_trade_plan op cfg id now ≡ ok plan
      → IsIndexed 0 plan.legs × (length plan.legs ≡ length op.legs)
  unfolding build_trade_plan plan_of
  build_trade_plan-IsIndexed op id now plan h e =
      let (gs, e', e'') = bind-eq-ok (build_legs cfg 0 op.legs) (plan_of op id now) e in
      let same : plan.legs ≡ gs = ground arith in
      rw same (build_legs-IsIndexed 0 op.legs gs (omega arith) e')

  build_leg-is_taker :
      (idx : ℕ) (l : LegEstimate D) (g : OrderLeg D)
      → build_leg cfg idx l ≡ ok g
      → g.is_taker ≡ takes cfg.aggression
  unfolding build_leg
  build_leg-is_taker idx l g e =
      let (q, e', e'') =
        bind-eq-ok (fit_qty (find cfg.lot_rules l.symbol) l) (order_leg cfg idx l) e in
      ground arith

  build_legs-is_taker :
      (idx : ℕ) (ls : List (LegEstimate D)) (gs : List (OrderLeg D))
      → build_legs cfg idx ls ≡ ok gs
      → All (λ (g : OrderLeg D). g.is_taker ≡ takes cfg.aggression) gs
  unfolding build_legs
  build_legs-is_taker idx [] gs e = let same : gs ≡ [] = ground arith in rw same tt
  build_legs-is_taker idx (l ∷ ls) gs e =
      let (g, e', rest) =
        bind-eq-ok (build_leg cfg idx l)
          (λ leg. build_legs cfg (idx + 1) ls >>= λ legs. ok (leg ∷ legs)) e in
      let (gs', e'', f) = bind-eq-ok (build_legs cfg (idx + 1) ls) (λ legs. ok (g ∷ legs)) rest in
      let same : gs ≡ g ∷ gs' = ground arith in
      rw same (build_leg-is_taker idx l g e', build_legs-is_taker (idx + 1) ls gs' e'')

  pub build_trade_plan-is_taker :
      (op : Opportunity D) (id : String) (now : ℕ) (plan : TradePlan D)
      → build_trade_plan op cfg id now ≡ ok plan
      → All (λ (g : OrderLeg D). g.is_taker ≡ takes cfg.aggression) plan.legs
  unfolding build_trade_plan plan_of
  build_trade_plan-is_taker op id now plan e =
      let (gs, e', e'') = bind-eq-ok (build_legs cfg 0 op.legs) (plan_of op id now) e in
      let same : plan.legs ≡ gs = ground arith in rw same (build_legs-is_taker 0 op.legs gs e')

  pub build_trade_plan-id :
      (op : Opportunity D) (id : String) (now : ℕ) (plan : TradePlan D)
      → build_trade_plan op cfg id now ≡ ok plan
      → plan.id ≡ id
  unfolding build_trade_plan plan_of
  build_trade_plan-id op id now plan e =
      let (gs, e', e'') = bind-eq-ok (build_legs cfg 0 op.legs) (plan_of op id now) e in
      ground arith
