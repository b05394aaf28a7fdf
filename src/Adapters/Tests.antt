-- ===== src/Adapters/Tests.antt =====
-- The adapter at concrete inputs. The only decimal here is the text itself.
use arb_core.Common.{ℕ, ◌≡◌, refl, true, false, none, some, List, [], ◌∷◌, String, ok}
use arb_core.Common.Dict.{Dict, find, IsMap}
use arb_core.MarketData.Wiring.{OrderbookUpdate}
use arb_core.Orderbook.{Level}
use arb_core.Adapters.Binance.{
  BinanceDepthEvent, parse_level, parse_levels, Text, to_update_from_event, to_update_from_depth,
}
use arb_core.Adapters.Stream.{
  Attempt, refused, connected, connect_waits, text, close, task_updates, read_messages, on_message,
  Merged, no_task, one_more, both_empty, from_left, from_right,
}
use arb_core.Adapters.Conversion.{to_update-raw}

abbrev plain : Text String
plain = record { parse_decimal = λ s. ok s; to_uppercase = λ s. s }

abbrev lvl : Level String
lvl = record { price = "101.5"; size = "2" }

to_update-raw_example :
    (to_update_from_event plain
        (record { symbol = "ETHBTC"; final_update_id = 9; bids = ("101.5", "2") ∷ []; asks = [] })
      ≡ ok (record {
        symbol = "ETHBTC";
        bids = lvl ∷ [];
        asks = [];
        sequence = some 9;
        is_snapshot = false;
      }))
    × (to_update_from_depth plain "ETHBTC"
          (record { last_update_id = 9; bids = ("101.5", "2") ∷ []; asks = [] })
        ≡ ok (record {
          symbol = "ETHBTC";
          bids = lvl ∷ [];
          asks = [];
          sequence = some 9;
          is_snapshot = true;
        }))
to_update-raw_example = to_update-raw plain (λ s. s) (λ s. refl) "ETHBTC" 9 (lvl ∷ []) []

abbrev attempts : List Attempt
attempts = refused ∷ refused ∷ connected [] ∷ refused ∷ []

doubled : connect_waits (λ i. 7) attempts ≡ 107 ∷ 207 ∷ 107 ∷ 207 ∷ []
unfolding connect_waits
doubled = refl

abbrev event : String → ℕ → BinanceDepthEvent
event symbol n = record {
  symbol = symbol;
  final_update_id = n;
  bids = ("101.5", "2") ∷ [];
  asks = [];
}

abbrev update_for : String → ℕ → OrderbookUpdate String
update_for symbol n = record {
  symbol = symbol;
  bids = lvl ∷ [];
  asks = [];
  sequence = some n;
  is_snapshot = false;
}

abbrev first_task : List Attempt
first_task =
    refused
    ∷ connected (text (some (event "ETHBTC" 9)) none ∷ close ∷ [])
    ∷ connected (text none (some (event "ETHBTC" 10)) ∷ [])
    ∷ []

abbrev tasks : Dict (List Attempt)
tasks =
    ("ETHBTC", first_task)
    ∷ ("BTCUSDT", connected (text (some (event "BTCUSDT" 4)) none ∷ []) ∷ [])
    ∷ []

abbrev merged : List (OrderbookUpdate String)
merged = update_for "ETHBTC" 9 ∷ update_for "BTCUSDT" 4 ∷ update_for "ETHBTC" 10 ∷ []

merged-Merged : Merged plain true tasks merged
unfolding task_updates read_messages on_message to_update_from_event parse_levels parse_level
merged-Merged =
    one_more (one_more no_task (from_left both_empty))
      (from_left (from_right (from_left both_empty)))

distinct : IsMap tasks
unfolding find
distinct = (refl, (refl, tt))

found : find tasks "ETHBTC" ≡ some first_task
unfolding find
found = refl
