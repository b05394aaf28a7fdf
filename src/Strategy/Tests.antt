-- ===== src/Strategy/Tests.antt =====
-- The strategy at concrete inputs, over whole numbers.
use arb_core.Common.{
  ℕ, ◌≡◌, ap, some, subst, sym, ◌∙◌, ◌↔◌, refl, Bool, false, true, List, [], ◌∷◌, String, All,
  arith, ok, leb, length,
}
use arb_core.Common.Dict.{find}
use arb_core.Decimal.Whole.{
  ℤ, pos, ◌*ℤ◌, whole, whole-IsOrdered, whole-IsAdditive, whole-IsMultiplicative, whole-DivDefined,
  whole-DividesDown, whole-DivNonneg, whole-FloorBelow, whole-MulMono, whole-MaxIsLarger,
}
use arb_core.MarketData.Triangle.{TriView}
use arb_core.Strategy.Config.{Float, StrategyConfig, aggressive, validate}
use arb_core.Strategy.Detector.{
  start, Opportunity, detect_triangular_opportunities, leg, fee_of, forward_cycle, backward_cycle,
  less_fee, offer,
}
use arb_core.Strategy.Planner.{
  TradePlan, OrderLeg, build_trade_plan, build_legs, build_leg, fit_qty, order_leg, plan_of,
  round_by_rule, raise_to_min, check_notional, round_qty_to_step,
}
use arb_core.Strategy.Validation.{IsSound, validate_iff}
use arb_core.Strategy.Cycles.Complete.{IsCycle, detect_lem}
use arb_core.Strategy.Cycles.{IsPriced, IsComplete}
use arb_core.Strategy.NoArbitrage.{detect_none, IsFair, NoneRoundedUp}
use arb_core.Strategy.Plans.Cover.{build_trade_plan-AreCovered, AreCovered, IsRoundable}
use arb_core.Strategy.Plans.{build_trade_plan_lem, PlanVerdict}

instance parts : Float ℕ
parts = record { zero_f = 0; one_f = 10; six_tenths = 6; le_f = leb }

abbrev test_config : StrategyConfig ℤ ℕ
test_config = record {
  triangle = "BTCUSDT" ∷ "ETHUSDT" ∷ "ETHBTC" ∷ [];
  base_currency = "USDT";
  fee_map = ("BTCUSDT", record { maker = pos 0; taker = pos 0 }) ∷ [];
  limits = record {
    max_notional = pos 0;
    min_profit_abs = pos 5;
    min_profit_pct = pos 0;
    depth_fill_factor = 6;
  };
  aggression = aggressive;
  max_concurrent_plans = 2;
  order_timeout_ms = 500;
  lot_rules =
      ("ETHBTC", record { min_size = pos 1; step_size = pos 3; min_notional = pos 10 }) ∷ [];
}

validate_iff_example : (validate test_config ≡ ok tt) ↔ IsSound test_config
validate_iff_example = validate_iff test_config

-- ETH costs 2 BTC of 100 and sells for 230, so the forward cycle earns
abbrev test_view : TriView ℤ
test_view = record {
  sym_ab = "BTCUSDT";
  bids_ab = (pos 99, pos 5) ∷ [];
  asks_ab = (pos 100, pos 5) ∷ [];
  sym_bc = "ETHUSDT";
  bids_bc = (pos 230, pos 9) ∷ [];
  asks_bc = (pos 231, pos 9) ∷ [];
  sym_ac = "ETHBTC";
  bids_ac = (pos 1, pos 9) ∷ [];
  asks_ac = (pos 2, pos 9) ∷ [];
}

test_view-IsPriced : IsPriced test_view
unfolding ◌*ℤ◌
test_view-IsPriced = record {
  ab = λ p e n. ground arith;
  ac = λ p e n. ground arith;
  bc = λ p e n. ground arith;
  ab_ac = λ p q e e' n.
      let hp : p ≡ pos 100 = ground arith in
      let hq : q ≡ pos 2 = ground arith in
      let h : pos 200 ≡ pos 0 = ap (λ x. x *ℤ pos 2) (sym hp) ∙ ap (λ y. p *ℤ y) (sym hq) ∙ n in
      ground arith;
}

detect_lem_example :
    (ops : List (Opportunity ℤ)) × (detect_triangular_opportunities test_view test_config.fee_map
        (pos 5)
      ≡ ok ops)
    × IsComplete test_view test_config.fee_map
        (pos 5)
        2
        (IsCycle whole-DivDefined test_view test_view-IsPriced test_config.fee_map (pos 5))
        ops
detect_lem_example =
    detect_lem whole-DivDefined test_view test_view-IsPriced test_config.fee_map (pos 5)

-- an opportunity is found
found :
    (ops : List (Opportunity ℤ)) × (detect_triangular_opportunities test_view [] (pos 5) ≡ ok ops)
    × (length ops ≡ 1)
unfolding detect_triangular_opportunities fee_of forward_cycle backward_cycle less_fee offer ◌*ℤ◌
    find
found = (_, refl, refl)

-- the same prices but for a sale of ETH at 200, which is fair
abbrev fair_view : TriView ℤ
fair_view = record test_view { bids_bc = (pos 200, pos 9) ∷ [] }

fair_view-IsFair : IsFair fair_view
unfolding ◌*ℤ◌
fair_view-IsFair = record {
  forward = λ p q r e e' e''.
      let hp : p ≡ pos 100 = ground arith in
      let hq : q ≡ pos 200 = ground arith in
      let hr : r ≡ pos 2 = ground arith in rw (hp, hq, hr) (refl, refl, refl, refl, refl);
  backward = λ p q r e e' e''.
      let hp : p ≡ pos 231 = ground arith in
      let hq : q ≡ pos 1 = ground arith in
      let hr : r ≡ pos 99 = ground arith in rw (hp, hq, hr) (refl, refl, refl, refl);
}

fair_view-NoneRoundedUp : NoneRoundedUp fair_view test_config.fee_map
unfolding less_fee fee_of find ◌*ℤ◌
fair_view-NoneRoundedUp = record {
  bought_ab = λ p e.
      let hp : p ≡ pos 100 = ground arith in rw hp (whole-DividesDown start (pos 100) refl refl);
  swapped_ac = λ p r bought e e' f.
      let hp : p ≡ pos 100 = ground arith in
      let hr : r ≡ pos 2 = ground arith in
      let g : whole.div start (pos 100) ≡ some bought =
        subst (λ x. whole.div start x ≡ some bought) hp f in
      let hb : bought ≡ pos 100 = ground arith in
      rw (hr, hb) (whole-DividesDown (pos 100) (pos 2) refl refl);
  bought_bc = λ p e.
      let hp : p ≡ pos 231 = ground arith in rw hp (whole-DividesDown start (pos 231) refl refl);
}

detect_none_example : detect_triangular_opportunities fair_view test_config.fee_map (pos 5) ≡ ok []
detect_none_example =
    detect_none whole-DivNonneg whole-DivDefined fair_view test_config.fee_map (pos 5)
      fair_view-IsFair fair_view-NoneRoundedUp ((refl, refl), tt) refl

abbrev test_opportunity : Opportunity ℤ
test_opportunity = record {
  start_currency = "USDT";
  estimated_profit = pos 1500;
  implied_price = pos 1;
  legs =
      leg "BTCUSDT" true (pos 100) (pos 100)
      ∷ leg "ETHBTC" true (pos 2) (pos 50)
      ∷ leg "ETHUSDT" false (pos 230) (pos 50)
      ∷ [];
}

build_trade_plan_lem_example :
    PlanVerdict test_config test_opportunity "p1" 7
      (build_trade_plan test_opportunity test_config "p1" 7)
unfolding ◌*ℤ◌
build_trade_plan_lem_example =
    build_trade_plan_lem whole-DivDefined test_config test_opportunity "p1" 7 (ground arith)

abbrev order : ℕ → ℕ → String → Bool → ℕ → OrderLeg ℤ
order price idx symbol buy qty = record {
  symbol = symbol;
  buy_base = buy;
  price_hint = pos price;
  qty = pos qty;
  is_taker = true;
  leg_idx = idx;
}

abbrev test_plan : TradePlan ℤ
test_plan = record {
  id = "p1";
  start_currency = "USDT";
  estimated_profit = pos 1500;
  estimated_profit_pct = pos 15;
  legs =
      order 100 0 "BTCUSDT" true 100
      ∷ order 2 1 "ETHBTC" true 48
      ∷ order 230 2 "ETHUSDT" false 50
      ∷ [];
  created_ts = 7;
}

planned : build_trade_plan test_opportunity test_config "p1" 7 ≡ ok test_plan
unfolding build_trade_plan build_legs build_leg fit_qty order_leg plan_of round_by_rule raise_to_min
    check_notional round_qty_to_step ◌*ℤ◌ find
planned = refl

test_legs-IsRoundable : All (IsRoundable test_config) test_opportunity.legs
unfolding find
test_legs-IsRoundable =
    ((refl, tt), ((refl, λ h. whole-DividesDown (pos 50) (pos 3) refl refl), ((refl, tt), tt)))

build_trade_plan-AreCovered_example : AreCovered test_config test_opportunity.legs test_plan.legs
build_trade_plan-AreCovered_example =
    build_trade_plan-AreCovered whole-DivDefined whole-FloorBelow whole-MulMono whole-MaxIsLarger
      test_config test_opportunity "p1" 7 test_plan test_legs-IsRoundable planned
