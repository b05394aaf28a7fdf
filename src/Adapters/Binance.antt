-- ===== src/Adapters/Binance.antt =====
-- binance_spot.rs: what the exchange sends, and the updates made of it. The parser of decimals and
-- the upper case of a text are libraries of the program and so parameters, the fields of `Text`.
use Prim.Native.String.{◌++◌ as concat}
use arb_core.Common.{ℕ, true, false, some, List, [], ◌∷◌, String, Outcome, ok, err, panic, ◌>>=◌}
use arb_core.Orderbook.{Level}
use arb_core.MarketData.Wiring.{OrderbookUpdate}

-- `parse_decimal` gives a decimal or the text of its error.
pub record Text (D : Type 0) : Type 0 where
  pub parse_decimal : String → Outcome String D
  pub to_uppercase : String → String

-- the part of `AdapterError` that the conversions return
pub data AdapterError : Type 0 where
  invalid_data : String → AdapterError

-- a level as it is sent: price and quantity
abbrev pub RawLevel : Type 0
RawLevel = String × String

pub record BinanceDepthResponse : Type 0 where
  pub last_update_id : ℕ
  pub bids : List RawLevel
  pub asks : List RawLevel

pub record BinanceDepthEvent : Type 0 where
  pub symbol : String
  pub final_update_id : ℕ
  pub bids : List RawLevel
  pub asks : List RawLevel

-- `map_err` with the words that name the bad number
abbrev pub name_error : {D : Type 0} → String → String → Outcome String D → Outcome AdapterError D
name_error what text (ok a) = ok a
name_error what text (err e) = err (invalid_data (concat what (concat text (concat ": " e))))
name_error what text panic = panic

module _ {D : Type 0} (t : Text D) where
  unfoldable pub parse_level : RawLevel → Outcome AdapterError (Level D)
  parse_level (p, q) = do
    price ← name_error "bad price " p (t.parse_decimal p)
    size ← name_error "bad qty " q (t.parse_decimal q)
    ok (record { price = price; size = size })

  -- `map` and `collect` into a result
  unfoldable pub parse_levels : List RawLevel → Outcome AdapterError (List (Level D))
  unfolding parse_level
  parse_levels [] = ok []
  parse_levels (raw ∷ rest) = parse_level raw >>= λ l. parse_levels rest >>= λ ls. ok (l ∷ ls)

  unfoldable pub to_update_from_depth :
      String → BinanceDepthResponse → Outcome AdapterError (OrderbookUpdate D)
  unfolding parse_levels
  to_update_from_depth symbol d = do
    bids ← parse_levels d.bids
    asks ← parse_levels d.asks
    ok (record {
      symbol = t.to_uppercase symbol;
      bids = bids;
      asks = asks;
      sequence = some d.last_update_id;
      is_snapshot = true;
    })

  unfoldable pub to_update_from_event : BinanceDepthEvent → Outcome AdapterError (OrderbookUpdate D)
  unfolding parse_levels
  to_update_from_event e = do
    bids ← parse_levels e.bids
    asks ← parse_levels e.asks
    ok (record {
      symbol = t.to_uppercase e.symbol;
      bids = bids;
      asks = asks;
      sequence = some e.final_update_id;
      is_snapshot = false;
    })
