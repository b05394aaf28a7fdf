-- ===== src/Adapters/Book.antt =====
-- binance_spot.rs as the adapter of the wiring: from what the exchange sends to the book of a worker.
-- What the exchange replies to a request for the depth is a parameter, by the number of the request
-- (`none` is a failure), and so is what each websocket yields and the order in which the tasks send.
mod Tests
use arb_core.Common.{
  ℕ, ◌+◌, ◌≡◌, Bool, true, false, Option, none, some, List, [], ◌∷◌, String, Outcome, ok, err,
  panic, ◌||◌, length, if◌then◌else◌,
}
use arb_core.Common.Dict.{Dict, IsMap}
use arb_core.Decimal.{Decimal}
use arb_core.MarketData.Wiring.{OrderbookUpdate}
use arb_core.MarketData.Tracking.{StaysNear}
use arb_core.MarketData.Startup.{ExchangeAdapter, is_listed}
use arb_core.Adapters.Binance.{Text, AdapterError, BinanceDepthResponse, to_update_from_depth}
use arb_core.Adapters.Stream.{Attempt, task_updates, Merged}
use arb_core.Adapters.Merging.{AreOwn}

-- one task for each symbol
unfoldable pub spawn_tasks : (String → List Attempt) → List String → Dict (List Attempt)
spawn_tasks attempts_of [] = []
spawn_tasks attempts_of (symbol ∷ symbols) =
    (symbol, attempts_of symbol) ∷ spawn_tasks attempts_of symbols

module _ {D : Type 0} (t : Text D) where
  -- an error of the conversion is an error of the call; the parser of decimals does not panic
  abbrev to_reply : Outcome AdapterError (OrderbookUpdate D) → Option (OrderbookUpdate D)
  to_reply (ok update) = some update
  to_reply (err e) = none
  to_reply panic = none

  abbrev pub get_snapshot_of : String → Option BinanceDepthResponse → Option (OrderbookUpdate D)
  get_snapshot_of symbol none = none
  get_snapshot_of symbol (some body) = to_reply (to_update_from_depth t symbol body)

  -- The adapter; `connect_ws` always returns a channel, and `come` is what comes out of it.
  unfoldable pub binance_spot_adapter :
      (String → ℕ → Option BinanceDepthResponse)
      → (List String → List (OrderbookUpdate D))
      → ExchangeAdapter D
  unfolding to_update_from_depth
  binance_spot_adapter respond come = record {
    get_snapshot = λ symbol i. get_snapshot_of symbol (respond symbol i);
    connect_ws = λ symbols. some (come symbols);
  }

  -- The exchange serves this symbol: its tasks have a symbol each and are sent events of it only, the
  -- first request for the depth has a reply that can be read, and the number before the last one of
  -- each event of the symbol is no more than `gap` away from the last number known before.
  pub record IsServed (gap : ℕ) (respond : String → ℕ → Option BinanceDepthResponse)
      (attempts_of : String → List Attempt) (come : List String → List (OrderbookUpdate D))
      (symbols : List String) (symbol : String) (body : BinanceDepthResponse)
      (snap : OrderbookUpdate D) : Type 0 where
    pub merged : Merged t true (spawn_tasks attempts_of symbols) (come symbols)
    pub own : AreOwn t (spawn_tasks attempts_of symbols)
    pub distinct : IsMap (spawn_tasks attempts_of symbols)
    pub listed : is_listed symbol symbols ≡ true
    pub replied : respond symbol 0 ≡ some body
    pub readable : to_update_from_depth t symbol body ≡ ok snap
    pub near : StaysNear gap body.last_update_id (task_updates t true (attempts_of symbol))
