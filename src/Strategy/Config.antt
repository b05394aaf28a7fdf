-- ===== src/Strategy/Config.antt =====
-- config.rs and errors.rs: the settings of the strategy and their validation. A `HashMap` is listed
-- in the order in which the loop of `validate` meets its entries. `f32` has no literal here: its
-- comparison and its constants are a parameter.
use Prim.Native.Char.{code}
use Prim.Native.String.{◌++◌ as concat}
use arb_core.Common.{
  ℕ, Bool, true, not, ◌&&◌, ◌||◌, List, [], ◌∷◌, String, Outcome, ok, ◌>>◌, fail_if, ◌==◌, leb,
  length,
}
use arb_core.Common.Dict.{Dict}
use arb_core.Decimal.{Decimal, nil, is_lt}

-- what the source uses of `f32`
pub record Float (F : Type 0) : Type 0 where
  pub zero_f : F
  pub one_f : F
  pub six_tenths : F
  pub le_f : F → F → Bool

pub record FeeInfo (D : Type 0) : Type 0 where
  pub maker : D
  pub taker : D

pub data Aggression : Type 0 where
  aggressive passive : Aggression

pub record Limits (D F : Type 0) : Type 0 where
  pub max_notional : D
  pub min_profit_abs : D
  pub min_profit_pct : D
  pub depth_fill_factor : F

pub record LotRule (D : Type 0) : Type 0 where
  pub min_size : D
  pub step_size : D
  pub min_notional : D

pub record StrategyConfig (D F : Type 0) : Type 0 where
  pub triangle : List String
  pub base_currency : String
  pub fee_map : Dict (FeeInfo D)
  pub limits : Limits D F
  pub aggression : Aggression
  pub max_concurrent_plans : ℕ
  pub order_timeout_ms : ℕ
  pub lot_rules : Dict (LotRule D)

-- The operating system's error in `Io` is its text.
pub data StrategyError (D : Type 0) : Type 0 where
  io : String → StrategyError D
  parse : String → StrategyError D
  validation : String → StrategyError D
  qty_rounded_zero : String → StrategyError D
  min_notional_unmet : String → D → D → StrategyError D
  internal : String → StrategyError D

-- `char::is_whitespace`: the code points of the property White_Space
unfoldable pub is_whitespace : ℕ → Bool
is_whitespace c =
    (leb 9 c && leb c 13)
    || c == 32
    || c == 0x85
    || c == 0xA0
    || c == 0x1680
    || (leb 0x2000 c && leb c 0x200A)
    || c == 0x2028
    || c == 0x2029
    || c == 0x202F
    || c == 0x205F
    || c == 0x3000

-- `s.trim().is_empty()`
unfoldable pub is_blank : String → Bool
unfolding is_whitespace
is_blank String.[] = true
is_blank (String.◌∷◌ c s) = is_whitespace (code c) && is_blank s

module _ {D : Type 0} ⦃d : Decimal D⦄ where
  open d use {add}

  unfoldable pub total : FeeInfo D → D
  total fee = add fee.maker fee.taker

  unfoldable pub validate_fees : Dict (FeeInfo D) → Outcome (StrategyError D) (Unit {0})
  validate_fees [] = ok tt
  validate_fees ((k, fee) ∷ rest) =
      fail_if (is_lt fee.maker nil || is_lt fee.taker nil)
        (validation (concat "fee values must be >= 0 for key " k))
      >> validate_fees rest

  unfoldable pub validate_lots : Dict (LotRule D) → Outcome (StrategyError D) (Unit {0})
  validate_lots [] = ok tt
  validate_lots ((sym, rule) ∷ rest) =
      fail_if (is_lt rule.min_size nil || is_lt rule.step_size nil || is_lt rule.min_notional nil)
        (validation (concat "lot_rules must be >= 0 for " sym))
      >> validate_lots rest

module _ {D F : Type 0} ⦃d : Decimal D⦄ ⦃f : Float F⦄ where
  open f use {zero_f, one_f, six_tenths, le_f}

  unfoldable pub default_limits : Limits D F
  default_limits = record {
    max_notional = nil;
    min_profit_abs = nil;
    min_profit_pct = nil;
    depth_fill_factor = six_tenths;
  }

  unfoldable pub default_config : StrategyConfig D F
  unfolding default_limits
  default_config = record {
    triangle = "BTC/USDT" ∷ "ETH/BTC" ∷ "ETH/USDT" ∷ [];
    base_currency = "USDT";
    fee_map = [];
    limits = default_limits;
    aggression = aggressive;
    max_concurrent_plans = 4;
    order_timeout_ms = 500;
    lot_rules = [];
  }

  unfoldable pub validate : StrategyConfig D F → Outcome (StrategyError D) (Unit {0})
  unfolding validate_fees validate_lots
  validate cfg = do
    fail_if (not (length cfg.triangle == 3)) (validation "triangle must contain exactly 3 symbols")
    fail_if (is_blank cfg.base_currency) (validation "base_currency must be set")
    fail_if (cfg.max_concurrent_plans == 0) (validation "max_concurrent_plans must be > 0")
    fail_if
        (not (le_f zero_f cfg.limits.depth_fill_factor && le_f cfg.limits.depth_fill_factor one_f))
        (validation "limits.depth_fill_factor must be between 0.0 and 1.0")
    fail_if (is_lt cfg.limits.min_profit_pct nil) (validation "limits.min_profit_pct must be >= 0")
    validate_fees cfg.fee_map
    validate_lots cfg.lot_rules
