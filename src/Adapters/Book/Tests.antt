-- ===== src/Adapters/Book/Tests.antt =====
-- From the exchange to the book at a concrete input, over whole numbers.
use arb_core.Common.{ℕ, true, false, none, some, List, [], ◌∷◌, String, ok, str_eq, if◌then◌else◌}
use arb_core.Decimal.Whole.{ℤ, pos, whole}
use arb_core.Orderbook.{Level}
use arb_core.MarketData.Wiring.{OrderbookUpdate, MarketDataManager}
use arb_core.Adapters.Binance.{Text, BinanceDepthResponse, BinanceDepthEvent}
use arb_core.Adapters.Stream.{Attempt, refused, connected, text, close}

abbrev digits : Text ℤ
digits = record {
  parse_decimal = λ s. ok (if str_eq s "2" then pos 2 else pos 100);
  to_uppercase = λ s. s;
}

abbrev event : String → ℕ → BinanceDepthEvent
event symbol n = record {
  symbol = symbol;
  final_update_id = n;
  bids = ("100", "2") ∷ [];
  asks = [];
}

abbrev body : BinanceDepthResponse
body = record { last_update_id = 8; bids = []; asks = ("100", "2") ∷ [] }

abbrev level : Level ℤ
level = record { price = pos 100; size = pos 2 }

abbrev first_depth : OrderbookUpdate ℤ
first_depth = record {
  symbol = "ETHBTC";
  bids = [];
  asks = level ∷ [];
  sequence = some 8;
  is_snapshot = true;
}

abbrev change : String → ℕ → OrderbookUpdate ℤ
change symbol n = record {
  symbol = symbol;
  bids = level ∷ [];
  asks = [];
  sequence = some n;
  is_snapshot = false;
}

abbrev attempts_of : String → List Attempt
attempts_of symbol =
    if str_eq symbol "ETHBTC"
    then refused
      ∷ connected (text (some (event "ETHBTC" 14)) none ∷ close ∷ [])
      ∷ connected (text none (some (event "ETHBTC" 40)) ∷ [])
      ∷ []
    else connected (text (some (event "BTCUSDT" 4)) none ∷ []) ∷ []

abbrev pair_of_symbols : List String
pair_of_symbols = "ETHBTC" ∷ "BTCUSDT" ∷ []

abbrev come : List String → List (OrderbookUpdate ℤ)
come symbols = change "ETHBTC" 14 ∷ change "BTCUSDT" 4 ∷ change "ETHBTC" 40 ∷ []

abbrev nobody : MarketDataManager ℤ
nobody = record { symbol_senders = []; snapshot_providers = [] }
