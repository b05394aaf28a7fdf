-- ===== src/Strategy/Planner.antt =====
-- planner.rs, with the data of a plan from engine.rs. The identity of a plan (a random UUID) and the
-- time of its making are arguments.
use arb_core.Common.{
  ℕ, ◌%◌, Bool, true, false, Option, none, some, List, [], ◌∷◌, String, Outcome, ok, err, ◌>>=◌,
  or_panic, if◌then◌else◌, ◌+◌,
}
use arb_core.Common.Dict.{find}
use arb_core.Decimal.{Decimal, nil, one, is_lt, is_le}
use arb_core.Strategy.Config.{
  StrategyConfig, StrategyError, LotRule, Aggression, aggressive, passive, qty_rounded_zero,
  min_notional_unmet,
}
use arb_core.Strategy.Detector.{Opportunity, LegEstimate}

pub record OrderLeg (D : Type 0) : Type 0 where
  pub symbol : String
  pub buy_base : Bool
  pub price_hint : D
  pub qty : D
  pub is_taker : Bool
  pub leg_idx : ℕ

pub record TradePlan (D : Type 0) : Type 0 where
  pub id : String
  pub start_currency : String
  pub estimated_profit : D
  pub estimated_profit_pct : D
  pub legs : List (OrderLeg D)
  pub created_ts : ℕ

-- `matches!(cfg.aggression, Aggression::Aggressive)`
abbrev pub takes : Aggression → Bool
takes aggressive = true
takes passive = false

module _ {D : Type 0} ⦃d : Decimal D⦄ where
  open d use {mul, div, floor, max}

  unfoldable pub round_qty_to_step : D → D → Outcome (StrategyError D) D
  round_qty_to_step qty step_size =
      if is_le step_size nil
      then ok qty
      else (or_panic (div qty step_size) >>= λ steps. ok (max (mul (floor steps) step_size) nil))

  unfoldable pub round_by_rule : LotRule D → D → Outcome (StrategyError D) D
  unfolding round_qty_to_step
  round_by_rule rule qty =
      if is_lt nil rule.step_size then round_qty_to_step qty rule.step_size else ok qty

  unfoldable pub raise_to_min : LotRule D → D → D
  raise_to_min rule qty =
      if is_lt nil rule.min_size
      then (if is_lt qty rule.min_size then rule.min_size else qty)
      else qty

  unfoldable pub check_notional : LotRule D → LegEstimate D → D → Outcome (StrategyError D) D
  check_notional rule l qty =
      if is_lt nil rule.min_notional
      then (let notional = mul qty l.price in
          if is_lt notional rule.min_notional
          then err (min_notional_unmet l.symbol notional rule.min_notional)
          else ok qty)
      else ok qty

  -- the quantity of a leg under the rule for its symbol, if there is one
  unfoldable pub fit_qty : Option (LotRule D) → LegEstimate D → Outcome (StrategyError D) D
  unfolding round_by_rule raise_to_min check_notional
  fit_qty (some rule) l =
      round_by_rule rule l.qty >>= λ qty. check_notional rule l (raise_to_min rule qty)
  fit_qty none l = if is_le l.qty nil then err (qty_rounded_zero l.symbol) else ok l.qty

  -- the divisor of the profit: the first leg's quantity at the implied price
  abbrev pub start_value : Opportunity D → List (LegEstimate D) → D
  start_value op [] = one
  start_value op (l ∷ ls) = mul l.qty op.implied_price

  unfoldable pub plan_of :
      Opportunity D → String → ℕ → List (OrderLeg D) → Outcome (StrategyError D) (TradePlan D)
  plan_of op id now legs = do
    pct ← or_panic (div op.estimated_profit (start_value op op.legs))
    ok (record {
      id = id;
      start_currency = op.start_currency;
      estimated_profit = op.estimated_profit;
      estimated_profit_pct = pct;
      legs = legs;
      created_ts = now;
    })

  module _ {F : Type 0} where
    -- the order of a leg, once its quantity is fitted
    unfoldable pub order_leg :
        StrategyConfig D F → ℕ → LegEstimate D → D → Outcome (StrategyError D) (OrderLeg D)
    order_leg cfg idx l qty =
        if is_le qty nil
        then err (qty_rounded_zero l.symbol)
        else ok (record {
          symbol = l.symbol;
          buy_base = l.side_buy;
          price_hint = l.price;
          qty = qty;
          is_taker = takes cfg.aggression;
          leg_idx = idx % 256;
        })

    -- the body of the loop over the legs
    unfoldable pub build_leg :
        StrategyConfig D F → ℕ → LegEstimate D → Outcome (StrategyError D) (OrderLeg D)
    unfolding fit_qty order_leg
    build_leg cfg idx l = fit_qty (find cfg.lot_rules l.symbol) l >>= order_leg cfg idx l

    unfoldable pub build_legs :
        StrategyConfig D F
        → ℕ
        → List (LegEstimate D)
        → Outcome (StrategyError D) (List (OrderLeg D))
    build_legs cfg idx [] = ok []
    build_legs cfg idx (l ∷ ls) =
        build_leg cfg idx l >>= λ leg. build_legs cfg (idx + 1) ls >>= λ legs. ok (leg ∷ legs)

    unfoldable pub build_trade_plan :
        Opportunity D → StrategyConfig D F → String → ℕ → Outcome (StrategyError D) (TradePlan D)
    unfolding plan_of
    build_trade_plan op cfg id now = build_legs cfg 0 op.legs >>= plan_of op id now
