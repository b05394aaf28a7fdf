-- ===== src/System/Demo.antt =====
-- The configuration that the demo runs with (crates/demo/src/mock_execution_demo.rs), and what its runs
-- come to. `dec m s` is the literal `dec!` of m with s digits after the point, and `eight_tenths` stands
-- for 0.8 as `f32`.
use arb_core.Common.{ℕ, ◌≤◌, ◌≡◌, refl, true, List, [], ◌∷◌, arith, ok, length}
use arb_core.Common.Dict.{Dict, put}
use arb_core.Decimal.{Decimal, IsOrdered, nil, ◌≼◌}
use arb_core.Strategy.Config.{
  is_blank, is_whitespace, StrategyConfig, FeeInfo, LotRule, Float, aggressive, validate,
}
use arb_core.Strategy.Validation.{IsSound, validate_iff}
use arb_core.System.State.{Event, new_system}
use arb_core.System.Actions.{run_system}
use arb_core.System.Runs.{reached-IsReady}

module _ {D F : Type 0} ⦃d : Decimal D⦄ (eight_tenths : F) where
  open d use {dec}

  abbrev demo_fee : FeeInfo D
  demo_fee = record { maker = dec 1 4; taker = dec 5 4 }

  unfoldable fee_map : Dict (FeeInfo D)
  unfolding put
  fee_map = put (put (put [] "BTCUSDT" demo_fee) "ETHUSDT" demo_fee) "ETHBTC" demo_fee

  abbrev rule_of : D → D → D → LotRule D
  rule_of min_size step_size min_notional = record {
    min_size = min_size;
    step_size = step_size;
    min_notional = min_notional;
  }

  unfoldable lot_rules : Dict (LotRule D)
  unfolding put
  lot_rules =
      put
        (put (put [] "BTCUSDT" (rule_of (dec 1 3) (dec 1 5) (dec 100 1))) "ETHUSDT"
          (rule_of (dec 1 2) (dec 1 4) (dec 100 1)))
        "ETHBTC" (rule_of (dec 1 2) (dec 1 3) (dec 1 4))

  unfoldable pub strategy_config : StrategyConfig D F
  unfolding fee_map lot_rules
  strategy_config = record {
    triangle = "BTCUSDT" ∷ "ETHUSDT" ∷ "ETHBTC" ∷ [];
    base_currency = "USDT";
    fee_map = fee_map;
    limits = record {
      max_notional = dec 100000 1;
      min_profit_abs = dec 10 0;
      min_profit_pct = dec 1 3;
      depth_fill_factor = eight_tenths;
    };
    aggression = aggressive;
    max_concurrent_plans = 3;
    order_timeout_ms = 5000;
    lot_rules = lot_rules;
  }

  module _ ⦃o : IsOrdered D⦄ ⦃f : Float F⦄ where
    strategy_config-IsSound :
        ((m s : ℕ) → nil ≼ dec m s)
        → f.le_f f.zero_f eight_tenths ≡ true
        → f.le_f eight_tenths f.one_f ≡ true
        → IsSound strategy_config
    unfolding strategy_config fee_map lot_rules put is_blank is_whitespace
    strategy_config-IsSound nonneg low high = record {
      three_symbols = refl;
      currency_set = refl;
      some_plan = omega arith;
      factor_low = low;
      factor_high = high;
      profit_nonneg = nonneg 1 3;
      fees_sound = (fee, (fee, (fee, tt)));
      lots_sound = (
        (nonneg 1 3, nonneg 1 5, nonneg 100 1),
        ((nonneg 1 2, nonneg 1 4, nonneg 100 1), ((nonneg 1 2, nonneg 1 3, nonneg 1 4), tt)),
      );
    }
      where
        fee : (nil ≼ dec 1 4) × (nil ≼ dec 5 4)
        fee = (nonneg 1 4, nonneg 5 4)

    -- With literals that are not negative and 0.8 between 0 and 1: in every state that a run of the
    -- demo reaches, whatever happened and in whatever order, the configuration is still one that
    -- `validate` accepts, and three plans at most are in flight.
    pub demo_lem :
        (evs : List (Event D))
        → ((m s : ℕ) → nil ≼ dec m s)
        → f.le_f f.zero_f eight_tenths ≡ true
        → f.le_f eight_tenths f.one_f ≡ true
        → let e = (run_system (new_system strategy_config) evs).engine in
          (validate e.cfg ≡ ok tt) × (length e.inflight ≤ 3)
    unfolding strategy_config
    demo_lem evs nonneg low high =
        let kept = reached-IsReady strategy_config evs in
        let sound = (validate_iff strategy_config).1 (strategy_config-IsSound nonneg low high) in
        (rw kept.same_cfg sound, kept.within)
