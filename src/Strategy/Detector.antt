-- ===== src/Strategy/Detector.antt =====
-- tri_arbitrage.rs: the two cycles through the best prices of a triangle. The printing of each
-- hundredth call, with the counter that it needs, is left out.
use arb_core.Common.{
  Bool, true, false, Option, none, some, List, [], ◌∷◌, ◌++◌, String, Outcome, ok, ◌>>=◌, or_panic,
  if◌then◌else◌,
}
use arb_core.Common.Dict.{Dict, find}
use arb_core.Decimal.{Decimal, nil, one, is_lt}
use arb_core.MarketData.Triangle.{TriView}
use arb_core.Strategy.Config.{FeeInfo, StrategyError}

pub record LegEstimate (D : Type 0) : Type 0 where
  pub symbol : String
  pub side_buy : Bool
  pub price : D
  pub qty : D

pub record Opportunity (D : Type 0) : Type 0 where
  pub start_currency : String
  pub estimated_profit : D
  pub implied_price : D
  pub legs : List (LegEstimate D)

-- the price of the best level
abbrev pub best : {D : Type 0} → List (D × D) → Option D
best [] = none
best ((p, s) ∷ m) = some p

module _ {D : Type 0} ⦃d : Decimal D⦄ where
  open d use {dec, sub, mul, div}

  -- the 10000 USDT that a cycle starts with
  abbrev pub start : D
  start = dec 10000 0

  abbrev taker_of : Option (FeeInfo D) → D
  taker_of none = nil
  taker_of (some fee) = fee.taker

  unfoldable pub fee_of : Dict (FeeInfo D) → String → D
  fee_of fees symbol = taker_of (find fees symbol)

  -- what is left of an amount after the fee
  unfoldable pub less_fee : D → D → D
  less_fee amount fee = mul amount (sub one fee)

  abbrev pub leg : String → Bool → D → D → LegEstimate D
  leg symbol side_buy price qty = record {
    symbol = symbol;
    side_buy = side_buy;
    price = price;
    qty = qty;
  }

  -- the end of a cycle: an opportunity if the profit is above the minimum
  unfoldable pub offer :
      D → D → Option D → List (LegEstimate D) → Outcome (StrategyError D) (List (Opportunity D))
  offer min_profit_abs profit implied legs =
      if is_lt min_profit_abs profit
      then (or_panic implied >>= λ implied_price. ok (
          record {
            start_currency = "USDT";
            estimated_profit = profit;
            implied_price = implied_price;
            legs = legs;
          }
          ∷ []))
      else ok []

  -- Cycle 1, at its three prices: buy on ab, buy on ac, sell on bc.
  unfoldable pub forward_cycle :
      TriView D
      → (fee_ab fee_bc fee_ac min_profit_abs ask_ab bid_bc ask_ac : D)
      → Outcome (StrategyError D) (List (Opportunity D))
  unfolding less_fee offer
  forward_cycle view fee_ab fee_bc fee_ac min_profit_abs ask_ab bid_bc ask_ac = do
    bought ← or_panic (div start ask_ab)
    let btc_amount = less_fee bought fee_ab
    swapped ← or_panic (div btc_amount ask_ac)
    let eth_amount = less_fee swapped fee_ac
    let final_usdt = less_fee (mul eth_amount bid_bc) fee_bc
    let profit = sub final_usdt start
    offer min_profit_abs profit (div bid_bc (mul ask_ab ask_ac)) (
        leg view.sym_ab true ask_ab bought
        ∷ leg view.sym_ac true ask_ac swapped
        ∷ leg view.sym_bc false bid_bc eth_amount
        ∷ [])

  -- Cycle 2, at its three prices: buy on bc, sell on ac, sell on ab.
  unfoldable pub backward_cycle :
      TriView D
      → (fee_ab fee_bc fee_ac min_profit_abs ask_bc bid_ac bid_ab : D)
      → Outcome (StrategyError D) (List (Opportunity D))
  unfolding less_fee offer
  backward_cycle view fee_ab fee_bc fee_ac min_profit_abs ask_bc bid_ac bid_ab = do
    bought ← or_panic (div start ask_bc)
    let eth_amount = less_fee bought fee_bc
    let btc_amount = less_fee (mul eth_amount bid_ac) fee_ac
    let final_usdt = less_fee (mul btc_amount bid_ab) fee_ab
    let profit = sub final_usdt start
    offer min_profit_abs profit (div (mul bid_ab bid_ac) ask_bc) (
        leg view.sym_bc true ask_bc bought
        ∷ leg view.sym_ac false bid_ac eth_amount
        ∷ leg view.sym_ab false bid_ab btc_amount
        ∷ [])

  -- `if let (Some(x), Some(y), Some(z)) = …`
  abbrev pub with_prices :
      (D → D → D → Outcome (StrategyError D) (List (Opportunity D)))
      → Option D
      → Option D
      → Option D
      → Outcome (StrategyError D) (List (Opportunity D))
  with_prices k (some x) (some y) (some z) = k x y z
  with_prices k _ _ _ = ok []

  unfoldable pub detect_triangular_opportunities :
      TriView D → Dict (FeeInfo D) → D → Outcome (StrategyError D) (List (Opportunity D))
  unfolding fee_of
  detect_triangular_opportunities view fee_map min_profit_abs =
      let fee_ab = fee_of fee_map view.sym_ab in
      let fee_bc = fee_of fee_map view.sym_bc in
      let fee_ac = fee_of fee_map view.sym_ac in
      (with_prices (forward_cycle view fee_ab fee_bc fee_ac min_profit_abs) (best view.asks_ab)
          (best view.bids_bc) (best view.asks_ac)
        >>= λ first.
            with_prices (backward_cycle view fee_ab fee_bc fee_ac min_profit_abs)
              (best view.asks_bc) (best view.bids_ac) (best view.bids_ab)
            >>= λ second. ok (first ++ second))
