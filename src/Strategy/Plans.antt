-- ===== src/Strategy/Plans.antt =====
-- What `build_trade_plan` makes of an opportunity.
pub mod Cover
pub mod Places
use arb_core.Common.{
  ℕ, ◌+◌, ◌%◌, ◌≡◌, ◌≢◌, ◌⊎◌, inl, inr, refl, Option, none, some, List, [], ◌∷◌, String, arith,
  Outcome, ok, err, panic, Bool-cases, All, bind-eq-ok, ◌>>=◌,
}
use arb_core.Common.Dict.{find}
use arb_core.Decimal.{Decimal, IsOrdered, DivDefined, MaxIsLarger, nil, ◌≺◌, ◌≼◌, is_lt, is_le}
use arb_core.Strategy.Config.{
  StrategyConfig, StrategyError, LotRule, io, parse, validation, qty_rounded_zero,
  min_notional_unmet, internal,
}
use arb_core.Strategy.Detector.{Opportunity, LegEstimate}
use arb_core.Strategy.Planner.{
  OrderLeg, TradePlan, takes, round_by_rule, raise_to_min, check_notional, fit_qty, order_leg,
  plan_of, build_leg, build_legs, start_value, build_trade_plan,
}

module _ {D : Type 0} ⦃d : Decimal D⦄ where
  open d use {mul, div, floor, max}

  -- A quantity above zero that meets the rule of its symbol; with no rule it is the estimate's.
  abbrev pub MeetsRule : Option (LotRule D) → LegEstimate D → D → Type 0
  MeetsRule (some rule) l q =
      (nil ≺ q)
      × (nil ≺ rule.min_size → rule.min_size ≼ q)
      × (nil ≺ rule.min_notional → rule.min_notional ≼ mul q l.price)
  MeetsRule none l q = (nil ≺ q) × (q ≡ l.qty)

  -- What an error says of the leg that it names.
  abbrev pub Blames : Option (LotRule D) → LegEstimate D → StrategyError D → Type 0
  Blames rule l (io t) = ⊥
  Blames rule l (parse t) = ⊥
  Blames rule l (validation t) = ⊥
  Blames rule l (internal t) = ⊥
  Blames rule l (qty_rounded_zero symbol) = symbol ≡ l.symbol
  Blames none l (min_notional_unmet symbol n least) = ⊥
  Blames (some rule) l (min_notional_unmet symbol n least) =
      (symbol ≡ l.symbol) × (least ≡ rule.min_notional) × (n ≺ least)

  abbrev pub FitVerdict : Option (LotRule D) → LegEstimate D → Outcome (StrategyError D) D → Type 0
  FitVerdict rule l (ok q) = MeetsRule rule l q ⊎ (q ≼ nil)
  FitVerdict rule l (err e) = Blames rule l e
  FitVerdict rule l panic = ⊥

  module _ {F : Type 0} (cfg : StrategyConfig D F) where
    abbrev rule_of : LegEstimate D → Option (LotRule D)
    rule_of l = find cfg.lot_rules l.symbol

    -- The order for the leg at this place.
    pub record IsOrder (idx : ℕ) (l : LegEstimate D) (leg : OrderLeg D) : Type 0 where
      pub same_symbol : leg.symbol ≡ l.symbol
      pub same_side : leg.buy_base ≡ l.side_buy
      pub same_price : leg.price_hint ≡ l.price
      pub place : leg.leg_idx ≡ idx % 256
      pub taker : leg.is_taker ≡ takes cfg.aggression
      pub fit : MeetsRule (rule_of l) l leg.qty

    -- One order for each leg, in order.
    abbrev pub AreOrders : ℕ → List (LegEstimate D) → List (OrderLeg D) → Type 0
    AreOrders idx [] [] = Unit
    AreOrders idx (l ∷ ls) (g ∷ gs) = IsOrder idx l g × AreOrders (idx + 1) ls gs
    AreOrders idx _ _ = ⊥

    abbrev pub AnyBlamed : List (LegEstimate D) → StrategyError D → Type 0
    AnyBlamed [] e = ⊥
    AnyBlamed (l ∷ ls) e = Blames (rule_of l) l e ⊎ AnyBlamed ls e

    abbrev pub LegVerdict : ℕ → LegEstimate D → Outcome (StrategyError D) (OrderLeg D) → Type 0
    LegVerdict idx l (ok g) = IsOrder idx l g
    LegVerdict idx l (err e) = Blames (rule_of l) l e
    LegVerdict idx l panic = ⊥

    abbrev pub LegsVerdict :
        ℕ → List (LegEstimate D) → Outcome (StrategyError D) (List (OrderLeg D)) → Type 0
    LegsVerdict idx ls (ok gs) = AreOrders idx ls gs
    LegsVerdict idx ls (err e) = AnyBlamed ls e
    LegsVerdict idx ls panic = ⊥

    pub record IsPlanOf (op : Opportunity D) (id : String) (now : ℕ) (plan : TradePlan D)
        : Type 0 where
      pub named : plan.id ≡ id
      pub currency : plan.start_currency ≡ op.start_currency
      pub profit : plan.estimated_profit ≡ op.estimated_profit
      pub share : div op.estimated_profit (start_value op op.legs) ≡ some plan.estimated_profit_pct
      pub made : plan.created_ts ≡ now
      pub orders : AreOrders 0 op.legs plan.legs

    abbrev pub PlanVerdict :
        Opportunity D → String → ℕ → Outcome (StrategyError D) (TradePlan D) → Type 0
    PlanVerdict op id now (ok plan) = IsPlanOf op id now plan
    PlanVerdict op id now (err e) = AnyBlamed op.legs e
    PlanVerdict op id now panic = ⊥

  module _ ⦃o : IsOrdered D⦄ (div_defined : DivDefined D) where
    not-nil : (p : D) → nil ≺ p → p ≢ nil
    not-nil p h e = ground (arith, o.cmp_refl nil)

    round_by_rule_total : (rule : LotRule D) (q : D) → (q' : D) × (round_by_rule rule q ≡ ok q')
    unfolding round_by_rule
    round_by_rule_total rule q = elim (Bool-cases (is_lt nil rule.step_size)) [
      | inl step ↦
          let (steps, e) = div_defined q rule.step_size (not-nil rule.step_size (ground arith)) in
          (
            max (mul (floor steps) rule.step_size) nil,
            ground (arith, o.gt_of_lt nil rule.step_size),
          )
      | inr whole ↦ (q, ground arith)
    ]

    raise_to_min-le :
        (rule : LotRule D) (q : D) → nil ≺ rule.min_size → rule.min_size ≼ raise_to_min rule q
    unfolding raise_to_min
    raise_to_min-le rule q h = ground (arith, o.lt_of_gt rule.min_size q, o.cmp_refl rule.min_size)

    check_notional_verdict :
        (rule : LotRule D) (l : LegEstimate D) (q : D)
        → (nil ≺ rule.min_size → rule.min_size ≼ q)
        → FitVerdict (some rule) l (check_notional rule l q)
    unfolding check_notional
    check_notional_verdict rule l q h = ground (
      arith,
      h,
      o.gt_of_lt (mul q l.price) rule.min_notional,
      o.lt_of_gt rule.min_notional (mul q l.price),
      o.lt_of_gt q nil,
      o.eq_of_cmp q nil,
      o.gt_of_lt q nil,
    )

    fit_verdict :
        (rule : Option (LotRule D)) (l : LegEstimate D) → FitVerdict rule l (fit_qty rule l)
    unfolding fit_qty
    fit_verdict none l = ground (arith, o.lt_of_gt l.qty nil)
    fit_verdict (some rule) l =
        let (q, e) = round_by_rule_total rule l.qty in
        rw e (check_notional_verdict rule l (raise_to_min rule q) (raise_to_min-le rule q))

    module _ {F : Type 0} (cfg : StrategyConfig D F) where
      leg_of_fit :
          (idx : ℕ) (l : LegEstimate D) (r : Outcome (StrategyError D) D)
          → fit_qty (find cfg.lot_rules l.symbol) l ≡ r
          → FitVerdict (find cfg.lot_rules l.symbol) l r
          → LegVerdict cfg idx l (build_leg cfg idx l)
      unfolding build_leg
      leg_of_fit idx l (ok q) e v = elim (Bool-cases (is_le q nil)) [
        | inl low ↦ rw (e, build_leg, low) refl
        | inr high ↦
            rw (e, build_leg, high)
              (record {
                same_symbol = refl;
                same_side = refl;
                same_price = refl;
                place = refl;
                taker = refl;
                fit = elim v [ inl meets ↦ meets | inr z ↦ absurd (ground arith) ];
              })
      ]
      leg_of_fit idx l (err b) e v = rw (e, build_leg) v
      leg_of_fit idx l panic e v = elim v [ ]

      legs_verdict :
          (idx : ℕ) (ls : List (LegEstimate D)) → LegsVerdict cfg idx ls (build_legs cfg idx ls)
      unfolding build_legs
      legs_verdict idx [] = tt
      legs_verdict idx (l ∷ ls) =
          join (build_leg cfg idx l) (build_legs cfg (idx + 1) ls)
            (leg_of_fit idx l (fit_qty (find cfg.lot_rules l.symbol) l) refl
              (fit_verdict (find cfg.lot_rules l.symbol) l))
            (legs_verdict (idx + 1) ls)
        where
          join :
              (r : Outcome (StrategyError D) (OrderLeg D))
              (rs : Outcome (StrategyError D) (List (OrderLeg D)))
              → LegVerdict cfg idx l r
              → LegsVerdict cfg (idx + 1) ls rs
              → LegsVerdict cfg idx (l ∷ ls) (r >>= λ g. rs >>= λ gs. ok (g ∷ gs))
          join (ok g) (ok gs) v vs = (v, vs)
          join (ok g) (err e) v vs = inr vs
          join (ok g) panic v vs = vs
          join (err e) rs v vs = inl v
          join panic rs v vs = v

      -- If the first leg's quantity at the implied price is not zero, `build_trade_plan` returns and
      -- does not panic. A plan carries the identity, the currency, the profit and its share, and for
      -- each leg of the opportunity, in order, one order with the leg's symbol, side and price, its
      -- place modulo 256, and a quantity above zero, which is at least the lot rule's minimum and
      -- makes at least its minimum notional, or without a rule is the leg's own. An error names a
      -- leg of the opportunity; one for the notional gives that rule's minimum and a notional below.
      pub build_trade_plan_lem :
          (op : Opportunity D) (id : String) (now : ℕ)
          → start_value op op.legs ≢ nil
          → PlanVerdict cfg op id now (build_trade_plan op cfg id now)
      unfolding build_trade_plan
      build_trade_plan_lem op id now h =
          let (pct, e) = div_defined op.estimated_profit (start_value op op.legs) h in
          finish pct e (build_legs cfg 0 op.legs) (legs_verdict 0 op.legs)
        where
          finish :
              (pct : D)
              → div op.estimated_profit (start_value op op.legs) ≡ some pct
              → (rs : Outcome (StrategyError D) (List (OrderLeg D))) → LegsVerdict cfg 0 op.legs rs
              → PlanVerdict cfg op id now (rs >>= plan_of op id now)
          finish pct e (ok gs) v =
              rw (e, plan_of)
                (record {
                  named = refl;
                  currency = refl;
                  profit = refl;
                  share = e;
                  made = refl;
                  orders = v;
                })
          finish pct e (err b) v = v
          finish pct e panic v = v
