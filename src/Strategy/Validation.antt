-- ===== src/Strategy/Validation.antt =====
-- Which configurations `validate` accepts.
use arb_core.Common.{◌≡◌, ◌<◌, ◌↔◌, false, true, [], ◌∷◌, String, arith, ok, All, length}
use arb_core.Common.Dict.{Dict}
use arb_core.Decimal.{Decimal, IsOrdered, nil, ◌≼◌}
use arb_core.Strategy.Config.{
  StrategyConfig, FeeInfo, LotRule, Float, is_blank, validate, validate_fees, validate_lots,
}

module _ {D : Type 0} ⦃d : Decimal D⦄ where
  abbrev pub IsFeeSound : String × FeeInfo D → Type 0
  IsFeeSound e = (nil ≼ e.1.maker) × (nil ≼ e.1.taker)

  abbrev pub IsLotSound : String × LotRule D → Type 0
  IsLotSound e = (nil ≼ e.1.min_size) × (nil ≼ e.1.step_size) × (nil ≼ e.1.min_notional)

  pub record IsSound {F : Type 0} ⦃f : Float F⦄ (cfg : StrategyConfig D F) : Type 0 where
    pub three_symbols : length cfg.triangle ≡ 3
    pub currency_set : is_blank cfg.base_currency ≡ false
    pub some_plan : 0 < cfg.max_concurrent_plans
    pub factor_low : f.le_f f.zero_f cfg.limits.depth_fill_factor ≡ true
    pub factor_high : f.le_f cfg.limits.depth_fill_factor f.one_f ≡ true
    pub profit_nonneg : nil ≼ cfg.limits.min_profit_pct
    pub fees_sound : All IsFeeSound cfg.fee_map
    pub lots_sound : All IsLotSound cfg.lot_rules

  module _ ⦃o : IsOrdered D⦄ where
    validate_fees_iff : (m : Dict (FeeInfo D)) → (validate_fees m ≡ ok tt) ↔ All IsFeeSound m
    unfolding validate_fees
    validate_fees_iff [] = ground arith
    validate_fees_iff ((k, fee) ∷ rest) = ground (
      arith,
      validate_fees_iff rest,
      o.gt_of_lt fee.maker nil,
      o.lt_of_gt nil fee.maker,
      o.gt_of_lt fee.taker nil,
      o.lt_of_gt nil fee.taker,
    )

    validate_lots_iff : (m : Dict (LotRule D)) → (validate_lots m ≡ ok tt) ↔ All IsLotSound m
    unfolding validate_lots
    validate_lots_iff [] = ground arith
    validate_lots_iff ((k, rule) ∷ rest) = ground (
      arith,
      validate_lots_iff rest,
      o.gt_of_lt rule.min_size nil,
      o.lt_of_gt nil rule.min_size,
      o.gt_of_lt rule.step_size nil,
      o.lt_of_gt nil rule.step_size,
      o.gt_of_lt rule.min_notional nil,
      o.lt_of_gt nil rule.min_notional,
    )

    -- `validate` accepts a configuration exactly if its triangle has three symbols, its currency is
    -- more than white space, it allows a plan, its fill factor lies between 0 and 1, and the least
    -- profit share, every fee and every number of every lot rule are not negative.
    pub validate_iff :
        {F : Type 0} ⦃f : Float F⦄ (cfg : StrategyConfig D F) → (validate cfg ≡ ok tt) ↔ IsSound cfg
    unfolding validate
    validate_iff cfg = ground (
      arith,
      validate_fees_iff cfg.fee_map,
      validate_lots_iff cfg.lot_rules,
      o.gt_of_lt cfg.limits.min_profit_pct nil,
      o.lt_of_gt nil cfg.limits.min_profit_pct,
    )
