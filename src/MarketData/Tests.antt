-- ===== src/MarketData/Tests.antt =====
-- The workers and the forwarder at concrete inputs, over whole numbers.
use arb_core.Common.{
  ℕ, ◌≡◌, ◌⊎◌, ◌↔◌, refl, false, true, none, some, List, [], ◌∷◌, String, arith, ok, map, length,
  ◌+◌,
}
use arb_core.Common.Dict.{Dict, find}
use arb_core.Decimal.Whole.{ℤ, pos, whole, whole-IsOrdered}
use arb_core.Orderbook.{
  Level, OrderBook, OrderbookSnapshot, OrderbookDelta, bid, ask, new, apply_delta, top_n,
  snapshot_copy,
}
use arb_core.MarketData.Triangle.{build_triview_from_snapshots}
use arb_core.MarketData.TopLevels.{pair, build_triview-top_n}
use arb_core.MarketData.Worker.{
  SymbolMessage, snapshot, delta, SnapshotFn, default_worker_config, Worker, fetch_snapshot_for,
  run_worker, per_symbol_worker,
}
use arb_core.MarketData.Buffering.{IsSound, per_symbol_worker-IsSound}
use arb_core.MarketData.Replay.{early_deltas-dropped}
use arb_core.MarketData.Wiring.{
  OrderbookUpdate, Sender, MarketDataManager, map_adapter_update_to_message,
}
use arb_core.MarketData.Subscription.{
  Triangle, Happening, tick, receive, shut_down, subscribe, run_subscription,
}
use arb_core.MarketData.Delivery.{IsFaithful, run_subscription-IsFaithful}
use arb_core.MarketData.Forwarding.{messages_for, forwarded_accepted_iff}

abbrev lvl : ℕ → ℕ → Level ℤ
lvl p s = record { price = pos p; size = pos s }

abbrev first_snapshot : OrderbookSnapshot ℤ
first_snapshot = record {
  symbol = "BTCUSDT";
  bids = lvl 99 5 ∷ [];
  asks = lvl 101 4 ∷ lvl 103 2 ∷ [];
  sequence = some 10;
  ts = none;
}

abbrev early_delta : OrderbookDelta ℤ
early_delta = record {
  symbol = "BTCUSDT";
  bids = lvl 98 1 ∷ [];
  asks = [];
  prev_sequence = some 10;
  sequence = some 11;
  ts = none;
}

abbrev no_providers : Dict (SnapshotFn ℤ)
no_providers = []

abbrev messages : List (SymbolMessage ℤ)
messages = delta early_delta ∷ snapshot first_snapshot ∷ delta early_delta ∷ []

abbrev worked : Worker ℤ
worked = per_symbol_worker default_worker_config no_providers (λ i. i) "BTCUSDT" messages

per_symbol_worker-IsSound_example : IsSound default_worker_config worked
per_symbol_worker-IsSound_example =
    per_symbol_worker-IsSound default_worker_config no_providers (λ i. i) "BTCUSDT" messages
      (((refl, tt), tt), (tt, (((refl, tt), tt), tt)))

early_deltas-dropped_example :
    per_symbol_worker default_worker_config no_providers (λ i. i) "BTCUSDT" messages
    ≡ run_worker default_worker_config no_providers
        (λ i. i)
        2
        (record {
          symbol = "BTCUSDT";
          book = new "BTCUSDT";
          buffered = [];
          snapshot_applied = false;
        })
        (snapshot first_snapshot ∷ delta early_delta ∷ [])
unfolding fetch_snapshot_for find
early_deltas-dropped_example =
    early_deltas-dropped default_worker_config no_providers (λ i. i) "BTCUSDT" (early_delta ∷ [])
      first_snapshot (delta early_delta ∷ []) refl (omega arith)

build_triview-top_n_example :
    let view =
      build_triview_from_snapshots "A"
        (snapshot_copy worked.book 5)
        "B"
        (snapshot_copy worked.book 5)
        "C"
        (snapshot_copy (new "C") 5)
        1 in
    (view.bids_ab ≡ map pair (top_n worked.book bid 1))
    × (view.asks_ab ≡ map pair (top_n worked.book ask 1))
    × (view.bids_bc ≡ map pair (top_n worked.book bid 1))
    × (view.asks_bc ≡ map pair (top_n worked.book ask 1))
    × (view.bids_ac ≡ map pair (top_n (new "C") bid 1))
    × (view.asks_ac ≡ map pair (top_n (new "C") ask 1))
build_triview-top_n_example = build_triview-top_n worked.book worked.book (new "C") "A" "B" "C" 1 5

abbrev empty_manager : MarketDataManager ℤ
empty_manager = record { symbol_senders = []; snapshot_providers = [] }

abbrev idle_sender : Sender ℤ
idle_sender = record { sent = []; open_ = true }

abbrev two_symbols : MarketDataManager ℤ
two_symbols = record {
  symbol_senders = ("BTCUSDT", idle_sender) ∷ ("ETHUSDT", idle_sender) ∷ [];
  snapshot_providers = [];
}

abbrev update_of : String → ℕ → OrderbookUpdate ℤ
update_of symbol n = record {
  symbol = symbol;
  bids = lvl 98 1 ∷ [];
  asks = [];
  sequence = some n;
  is_snapshot = false;
}

abbrev updates : List (OrderbookUpdate ℤ)
updates = update_of "BTCUSDT" 11 ∷ update_of "ETHUSDT" 7 ∷ update_of "BTCUSDT" 12 ∷ []

two_sent : length (messages_for "BTCUSDT" updates) ≡ 2
unfolding messages_for
two_sent = refl

abbrev next_delta : OrderbookDelta ℤ
next_delta = record {
  symbol = "BTCUSDT";
  bids = lvl 98 1 ∷ [];
  asks = [];
  prev_sequence = some 10;
  sequence = some 11;
  ts = none;
}

abbrev at_ten : OrderBook ℤ
at_ten = record {
  symbol = "BTCUSDT";
  inner = record { bids = []; asks = []; last_seq = some 10; last_update_ts = none };
  resync_required = false;
}

forwarded_accepted_iff_example :
    let n : ℕ = 10 in
    let s : ℕ = 11 in
    ((apply_delta at_ten next_delta 5).1 ≡ ok tt) ↔ ((s ≡ n + 1) ⊎ ((s ≡ 0) × (n ≡ 0)))
unfolding map_adapter_update_to_message
forwarded_accepted_iff_example =
    forwarded_accepted_iff at_ten (update_of "BTCUSDT" 11) next_delta 10 11 5 refl refl refl

abbrev triangle : Triangle
triangle = record { sym_ab = "BTCUSDT"; sym_bc = "ETHBTC"; sym_ac = "ETHUSDT"; top_n = 1 }

abbrev happenings : List (Happening ℤ)
happenings =
    tick (some first_snapshot) (some first_snapshot) (some first_snapshot) 0
    ∷ tick (some first_snapshot) none (some first_snapshot) 0
    ∷ receive
    ∷ tick (some first_snapshot) (some first_snapshot) (some first_snapshot) 0
    ∷ shut_down
    ∷ []

run_subscription-IsFaithful_example :
    IsFaithful triangle subscribe happenings (run_subscription triangle subscribe happenings)
run_subscription-IsFaithful_example = run_subscription-IsFaithful triangle happenings
