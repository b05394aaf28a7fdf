-- ===== src/MarketData/Live/Tests.antt =====
-- The wiring of an adapter at a concrete input, over whole numbers.
use arb_core.Common.{
  ℕ, ◌≡◌, ◌≢◌, ◌↔◌, refl, false, true, none, some, List, [], ◌∷◌, String, length, ◌+◌,
}
use arb_core.Common.Dict.{find}
use arb_core.Decimal.Whole.{ℤ, pos, whole, whole-IsOrdered}
use arb_core.Orderbook.{Level, change_levels, load_levels}
use arb_core.MarketData.Worker.{default_worker_config, per_symbol_worker}
use arb_core.MarketData.Wiring.{OrderbookUpdate, Sender, MarketDataManager}
use arb_core.MarketData.Tracking.{all_bids, all_asks, IsAt}
use arb_core.MarketData.Startup.{
  ExchangeAdapter, wire_adapter_to_manager, streamed, IsWired, wire_adapter_to_manager_lem,
}
use arb_core.MarketData.Live.{updates_of, IsSteady, wired_worker-IsAt}

abbrev lvl : ℕ → ℕ → Level ℤ
lvl p s = record { price = pos p; size = pos s }

abbrev empty_manager : MarketDataManager ℤ
empty_manager = record { symbol_senders = []; snapshot_providers = [] }

abbrev update_of : String → ℕ → OrderbookUpdate ℤ
update_of symbol n = record {
  symbol = symbol;
  bids = lvl 98 1 ∷ [];
  asks = [];
  sequence = some n;
  is_snapshot = false;
}

abbrev adapter_snapshot : OrderbookUpdate ℤ
adapter_snapshot = record {
  symbol = "BTCUSDT";
  bids = lvl 99 5 ∷ [];
  asks = lvl 101 4 ∷ [];
  sequence = some 10;
  is_snapshot = true;
}

abbrev mixed_updates : List (OrderbookUpdate ℤ)
mixed_updates = update_of "BTCUSDT" 11 ∷ update_of "ETHUSDT" 7 ∷ update_of "BTCUSDT" 12 ∷ []

abbrev fake_adapter : ExchangeAdapter ℤ
fake_adapter = record {
  get_snapshot = λ symbol i. some adapter_snapshot;
  connect_ws = λ symbols. some mixed_updates;
}

abbrev both_symbols : List String
both_symbols = "BTCUSDT" ∷ "ETHUSDT" ∷ []

wire_adapter_to_manager_lem_example :
    let (m', wired) = wire_adapter_to_manager fake_adapter empty_manager both_symbols in
    ((wired ≡ true) ↔ (fake_adapter.connect_ws both_symbols ≢ none))
    × ((symbol : String)
        → IsWired fake_adapter empty_manager m' both_symbols
            (streamed (fake_adapter.connect_ws both_symbols))
            symbol)
wire_adapter_to_manager_lem_example =
    wire_adapter_to_manager_lem fake_adapter empty_manager both_symbols

steady : IsSteady fake_adapter both_symbols "BTCUSDT" adapter_snapshot mixed_updates 10
steady = record {
  connects = refl;
  listed = refl;
  first = refl;
  numbered = refl;
  follow = (refl, refl, (refl, refl, tt));
}

wired_worker-IsAt_example :
    let m' = (wire_adapter_to_manager fake_adapter empty_manager both_symbols).0 in
    let us = updates_of "BTCUSDT" mixed_updates in
    (tx : Sender ℤ) × (find m'.symbol_senders "BTCUSDT" ≡ some tx)
    × IsAt
        (per_symbol_worker default_worker_config m'.snapshot_providers (λ i. i) "BTCUSDT" tx.sent)
        (change_levels (all_bids us) (load_levels adapter_snapshot.bids []))
        (change_levels (all_asks us) (load_levels adapter_snapshot.asks []))
        (10 + length us)
unfolding find
wired_worker-IsAt_example =
    wired_worker-IsAt default_worker_config (λ i. i) fake_adapter empty_manager both_symbols
      "BTCUSDT" adapter_snapshot mixed_updates 10 refl steady
