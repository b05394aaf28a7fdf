-- ===== src/Strategy/Engine/Detector.antt =====
-- The detector task of engine.rs.
use arb_core.Common.{
  ℕ, ◌+◌, Bool, true, false, not, List, [], ◌∷◌, ◌++◌, String, Outcome, ok, err, panic, ◌>>=◌,
  or_panic, if◌then◌else◌, leb, length,
}
use arb_core.Common.Dict.{put, delete}
use arb_core.Decimal.{Decimal, nil, is_lt, is_le}
use arb_core.MarketData.Triangle.{TriView}
use arb_core.Strategy.Config.{StrategyConfig, StrategyError}
use arb_core.Strategy.Detector.{Opportunity, LegEstimate, detect_triangular_opportunities}
use arb_core.Strategy.Planner.{TradePlan, OrderLeg, build_trade_plan}
use arb_core.Strategy.Engine.{StrategyEngine, count_seen, count_submitted, count_rejected}

-- What the checks make of an opportunity. `crashed` is a panic of the task.
pub data Verdict (D : Type 0) : Type 0 where
  refused crashed : Verdict D
  accepted : TradePlan D → Verdict D

module _ {D : Type 0} where
  abbrev pub verdict_of : Outcome (StrategyError D) (TradePlan D) → Verdict D
  verdict_of (ok plan) = accepted plan
  verdict_of (err e) = refused
  verdict_of panic = crashed

  abbrev pub after_checks : Outcome (StrategyError D) Bool → Verdict D → Verdict D
  after_checks (ok true) v = v
  after_checks (ok false) v = refused
  after_checks (err e) v = refused
  after_checks panic v = crashed

module _ {D : Type 0} ⦃d : Decimal D⦄ where
  -- `vec![Decimal::ZERO; n]`
  unfoldable pub no_fills : List (OrderLeg D) → List D
  no_fills [] = []
  no_fills (leg ∷ legs) = nil ∷ no_fills legs

module _ {D F : Type 0} ⦃d : Decimal D⦄ where
  open d use {mul, div}

  unfoldable pub profit_check :
      StrategyConfig D F → Opportunity D → List (LegEstimate D) → Outcome (StrategyError D) Bool
  profit_check cfg op [] = ok false
  profit_check cfg op (first_leg ∷ rest) =
      or_panic (div op.estimated_profit (mul first_leg.qty op.implied_price)) >>= λ profit_pct.
      ok (not (is_lt profit_pct cfg.limits.min_profit_pct))

  unfoldable pub pre_trade_checks :
      StrategyConfig D F → Opportunity D → Outcome (StrategyError D) Bool
  unfolding profit_check
  pre_trade_checks cfg op =
      if is_le op.estimated_profit cfg.limits.min_profit_abs
      then ok false
      else (if is_lt nil cfg.limits.min_profit_pct then profit_check cfg op op.legs else ok true)

  -- the checks of one opportunity, at a count of the plans in flight
  unfoldable pub vet : StrategyConfig D F → ℕ → Opportunity D → String → ℕ → Verdict D
  unfolding pre_trade_checks build_trade_plan
  vet cfg infl_count op id now =
      if leb cfg.max_concurrent_plans infl_count
      then refused
      else after_checks (pre_trade_checks cfg op) (verdict_of (build_trade_plan op cfg id now))

  unfoldable pub register : StrategyEngine D F → TradePlan D → ℕ → StrategyEngine D F
  unfolding no_fills
  register e plan now = record e {
    inflight = put e.inflight plan.id (record {
      plan = plan;
      filled = no_fills plan.legs;
      submitted_at = now;
      timeout_ms = e.cfg.order_timeout_ms;
    });
  }

  unfoldable pub submit : StrategyEngine D F → TradePlan D → StrategyEngine D F
  submit e plan =
      if e.exec_open
      then count_submitted (record e { exec_sent = e.exec_sent ++ (plan ∷ []) })
      else count_rejected (record e { inflight = delete e.inflight plan.id })

  -- The body of the loop over the opportunities; false if the task has panicked.
  unfoldable pub handle_opportunity :
      StrategyEngine D F → Opportunity D → String → ℕ → StrategyEngine D F × Bool
  unfolding vet register submit
  handle_opportunity e op id now = elim (vet e.cfg (length e.inflight) op id now) [
    | refused ↦ (count_rejected e, true)
    | crashed ↦ (e, false)
    | accepted plan ↦ (submit (register e plan now) plan, true)
  ]

  -- The environment gives a fresh identity and the time for each opportunity.
  unfoldable pub handle_opportunities :
      StrategyEngine D F → List (Opportunity D) → ℕ → (ℕ → String × ℕ) → StrategyEngine D F × Bool
  unfolding handle_opportunity
  handle_opportunities e [] i env = (e, true)
  handle_opportunities e (op ∷ ops) i env =
      let (e', alive) = handle_opportunity e op (env i).0 (env i).1 in
      let rest = handle_opportunities e' ops (i + 1) env in if alive then rest else (e', false)

  abbrev pub on_opportunities :
      StrategyEngine D F
      → ℕ
      → (ℕ → String × ℕ)
      → Outcome (StrategyError D) (List (Opportunity D))
      → StrategyEngine D F × Bool
  on_opportunities e i env (ok ops) = handle_opportunities e ops i env
  on_opportunities e i env (err b) = (e, false)
  on_opportunities e i env panic = (e, false)

  -- one view of the detector's loop
  unfoldable pub handle_view :
      StrategyEngine D F → TriView D → ℕ → (ℕ → String × ℕ) → StrategyEngine D F × Bool
  unfolding handle_opportunities
  handle_view e view i env =
      on_opportunities (count_seen e) i env
        (detect_triangular_opportunities view e.cfg.fee_map e.cfg.limits.min_profit_abs)
