-- ===== src/Strategy/Plans/Cover.antt =====
-- How much a plan orders of a leg.
use arb_core.Common.{
  ℕ, ◌+◌, ◌≡◌, ◌⊎◌, inl, inr, Option, none, some, List, [], ◌∷◌, String, arith, Outcome, ok,
  Bool-cases, All, bind-eq-ok, ◌>>=◌,
}
use arb_core.Common.Dict.{find}
use arb_core.Decimal.{
  Decimal, IsOrdered, DivDefined, DividesDown, FloorBelow, MulMono, MaxIsLarger, ◌≺◌, nil, ◌≼◌,
  is_lt,
}
use arb_core.Decimal.Order.{le_of_lt, le_trans}
use arb_core.Strategy.Config.{StrategyConfig, StrategyError, LotRule}
use arb_core.Strategy.Detector.{Opportunity, LegEstimate}
use arb_core.Strategy.Planner.{
  OrderLeg, TradePlan, round_by_rule, raise_to_min, check_notional, fit_qty, order_leg, plan_of,
  build_leg, build_legs, build_trade_plan,
}
use arb_core.Strategy.Plans.{not-nil}

module _ {D : Type 0} ⦃d : Decimal D⦄ where
  open d use {mul, div, floor, max}

  -- A planned quantity is never above the estimate, unless it is the lot rule's minimum.
  abbrev pub IsCovered : Option (LotRule D) → LegEstimate D → D → Type 0
  IsCovered none l q = q ≼ l.qty
  IsCovered (some rule) l q = (q ≼ l.qty) ⊎ (q ≡ rule.min_size)

  -- The number of steps of the lot rule in the estimate is not rounded up.
  abbrev pub StepsDown : Option (LotRule D) → LegEstimate D → Type 0
  StepsDown none l = Unit
  StepsDown (some rule) l = nil ≺ rule.step_size → DividesDown l.qty rule.step_size

  module _ {F : Type 0} (cfg : StrategyConfig D F) where
    abbrev pub AreCovered : List (LegEstimate D) → List (OrderLeg D) → Type 0
    AreCovered [] [] = Unit
    AreCovered (l ∷ ls) (g ∷ gs) =
        IsCovered (find cfg.lot_rules l.symbol) l g.qty × AreCovered ls gs
    AreCovered _ _ = ⊥

    abbrev pub IsRoundable : LegEstimate D → Type 0
    IsRoundable l = (nil ≼ l.qty) × StepsDown (find cfg.lot_rules l.symbol) l

  module _ ⦃o : IsOrdered D⦄ (div_defined : DivDefined D) where
    module _ (floor_below : FloorBelow D) (mul_mono : MulMono D)
        (max_is_larger : MaxIsLarger D) where
      round_by_rule-le :
          (rule : LotRule D) (q r : D)
          → nil ≼ q
          → (nil ≺ rule.step_size → DividesDown q rule.step_size)
          → round_by_rule rule q ≡ ok r
          → r ≼ q
      unfolding round_by_rule
      round_by_rule-le rule q r h down e = elim (Bool-cases (is_lt nil rule.step_size)) [
        | inl positive ↦
            let step = rule.step_size in
            let up : nil ≺ step = ground arith in
            let (steps, e') = div_defined q step (not-nil div_defined step up) in
            let whole_ =
              mul_mono (floor steps) steps step (le_of_lt nil step up) (floor_below steps) in
            let fits =
              le_trans (mul (floor steps) step) (mul steps step) q whole_ (down up steps e') in
            ground (arith, fits, max_is_larger (mul (floor steps) step) nil, o.gt_of_lt nil step)
        | inr whole_ ↦ ground (arith, o.cmp_refl q)
      ]

      check_notional_lem :
          (rule : LotRule D) (l : LegEstimate D) (q r : D) → check_notional rule l q ≡ ok r → r ≡ q
      unfolding check_notional
      check_notional_lem rule l q r e = ground arith

      fit_qty-IsCovered :
          (rule : Option (LotRule D)) (l : LegEstimate D) (q : D)
          → nil ≼ l.qty
          → StepsDown rule l
          → fit_qty rule l ≡ ok q
          → IsCovered rule l q
      unfolding fit_qty
      fit_qty-IsCovered none l q h down e = ground (arith, o.cmp_refl l.qty)
      fit_qty-IsCovered (some rule) l q h down e =
          let (r, e', e'') =
            bind-eq-ok (round_by_rule rule l.qty) (λ r. check_notional rule l (raise_to_min rule r))
              e in
          ground (
            arith,
            round_by_rule-le rule l.qty r h down e',
            check_notional_lem rule l (raise_to_min rule r) q e'',
          )

      plan_of-legs :
          (op : Opportunity D) (id : String) (now : ℕ) (gs : List (OrderLeg D)) (plan : TradePlan D)
          → plan_of op id now gs ≡ ok plan
          → plan.legs ≡ gs
      unfolding plan_of
      plan_of-legs op id now gs plan e = ground arith

      abbrev with_first :
          OrderLeg D → List (OrderLeg D) → Outcome (StrategyError D) (List (OrderLeg D))
      with_first g gs = ok (g ∷ gs)

      module _ {F : Type 0} (cfg : StrategyConfig D F) where
        build_leg-IsCovered :
            (idx : ℕ) (l : LegEstimate D) (g : OrderLeg D)
            → IsRoundable cfg l
            → build_leg cfg idx l ≡ ok g
            → IsCovered (find cfg.lot_rules l.symbol) l g.qty
        unfolding build_leg
        build_leg-IsCovered idx l g h e =
            let rule = find cfg.lot_rules l.symbol in
            let (q, e', e'') = bind-eq-ok (fit_qty rule l) (order_leg cfg idx l) e in
            let covered = fit_qty-IsCovered rule l q h.0 h.1 e' in
            let same : g.qty ≡ q = ground arith in rw same covered

        build_legs-AreCovered :
            (idx : ℕ) (ls : List (LegEstimate D)) (gs : List (OrderLeg D))
            → All (IsRoundable cfg) ls
            → build_legs cfg idx ls ≡ ok gs
            → AreCovered cfg ls gs
        unfolding build_legs
        build_legs-AreCovered idx [] [] h e = tt
        build_legs-AreCovered idx [] (g ∷ gs) h e = absurd (ground arith)
        build_legs-AreCovered idx (l ∷ ls) gs h e =
            let (g, e', rest) =
              bind-eq-ok (build_leg cfg idx l)
                (λ leg. build_legs cfg (idx + 1) ls >>= λ legs. ok (leg ∷ legs)) e in
            let (gs', e'', f) = bind-eq-ok (build_legs cfg (idx + 1) ls) (with_first g) rest in
            let same : gs ≡ g ∷ gs' = ground arith in
            rw same
              (build_leg-IsCovered idx l g h.0 e', build_legs-AreCovered (idx + 1) ls gs' h.1 e'')

        -- If no quantity of the estimate is negative, and no quotient of one by the step of its lot
        -- rule is rounded up, a plan never orders more of a leg than the estimate, except where the
        -- minimum of the symbol's lot rule asks for just that minimum. Of the decimals: division
        -- panics at zero only, `floor` is not above its argument, `max` is the larger one, and products
        -- grow with a factor.
        pub build_trade_plan-AreCovered :
            (op : Opportunity D) (id : String) (now : ℕ) (plan : TradePlan D)
            → All (IsRoundable cfg) op.legs
            → build_trade_plan op cfg id now ≡ ok plan
            → AreCovered cfg op.legs plan.legs
        unfolding build_trade_plan
        build_trade_plan-AreCovered op id now plan h e =
            let (gs, e', e'') = bind-eq-ok (build_legs cfg 0 op.legs) (plan_of op id now) e in
            rw (plan_of-legs op id now gs plan e'') (build_legs-AreCovered 0 op.legs gs h e')
