-- ===== src/MarketData/Wiring.antt =====
-- adapter_wiring.rs and the maps of `MarketDataManager` in manager.rs. The update of an adapter is
-- adapters/src/types.rs. A sender is the list of what was sent through it and a flag, true until the
-- worker is gone; what a worker makes of the messages is Worker.antt.
use arb_core.Common.{
  ℕ, ◌-◌, ◌++◌, Bool, true, Option, none, some, List, [], ◌∷◌, String, if◌then◌else◌,
}
use mathlib.Core.Option
use arb_core.Common.Dict.{Dict, find, put}
use arb_core.Orderbook.{Level, OrderbookSnapshot}
use arb_core.MarketData.Worker.{SymbolMessage, snapshot, delta, SnapshotFn}

pub record OrderbookUpdate (D : Type 0) : Type 0 where
  pub symbol : String
  pub bids : List (Level D)
  pub asks : List (Level D)
  pub sequence : Option ℕ
  pub is_snapshot : Bool

pub record Sender (D : Type 0) : Type 0 where
  pub sent : List (SymbolMessage D)
  pub open_ : Bool

pub record MarketDataManager (D : Type 0) : Type 0 where
  pub symbol_senders : Dict (Sender D)
  pub snapshot_providers : Dict (SnapshotFn D)

module _ {D : Type 0} where
  unfoldable pub map_adapter_snapshot_to_canonical : OrderbookUpdate D → OrderbookSnapshot D
  map_adapter_snapshot_to_canonical adapter_snap = record {
    symbol = adapter_snap.symbol;
    bids = adapter_snap.bids;
    asks = adapter_snap.asks;
    sequence = adapter_snap.sequence;
    ts = none;
  }

  unfoldable pub map_adapter_update_to_message : OrderbookUpdate D → String × SymbolMessage D
  map_adapter_update_to_message update =
      if update.is_snapshot
      then (
        update.symbol,
        snapshot (record {
          symbol = update.symbol;
          bids = update.bids;
          asks = update.asks;
          sequence = update.sequence;
          ts = none;
        }),
      )
      else (
        update.symbol,
        delta (record {
          symbol = update.symbol;
          bids = update.bids;
          asks = update.asks;
          prev_sequence = Option.map (λ (s : ℕ). s - 1) update.sequence;
          sequence = update.sequence;
          ts = none;
        }),
      )

  unfoldable pub store_provider :
      Dict (SnapshotFn D) → String → Option (SnapshotFn D) → Dict (SnapshotFn D)
  store_provider providers symbol none = providers
  store_provider providers symbol (some sf) = put providers symbol sf

  -- The state after the call; a worker is spawned for a new symbol.
  unfoldable pub ensure_symbol_with_snapshot_provider :
      MarketDataManager D → String → Option (SnapshotFn D) → MarketDataManager D
  unfolding store_provider
  ensure_symbol_with_snapshot_provider m symbol snapshot_fn =
      let providers = store_provider m.snapshot_providers symbol snapshot_fn in
      elim (find m.symbol_senders symbol) [
        | some tx ↦ record m { snapshot_providers = providers }
        | none ↦ record m {
          symbol_senders = put m.symbol_senders symbol (record { sent = []; open_ = true });
          snapshot_providers = providers;
        }
      ]

  unfoldable pub get_sender : MarketDataManager D → String → Option (Sender D)
  get_sender m symbol = find m.symbol_senders symbol

  abbrev pub push : Sender D → SymbolMessage D → Sender D
  push tx msg = if tx.open_ then record tx { sent = tx.sent ++ (msg ∷ []) } else tx

  -- a message for a symbol that is unknown is dropped
  unfoldable pub deliver : MarketDataManager D → String → SymbolMessage D → MarketDataManager D
  unfolding get_sender
  deliver m sym msg = elim (get_sender m sym) [
    | none ↦ m
    | some tx ↦ record m { symbol_senders = put m.symbol_senders sym (push tx msg) }
  ]

  -- the body of the forwarder's loop
  unfoldable pub forward : MarketDataManager D → OrderbookUpdate D → MarketDataManager D
  unfolding map_adapter_update_to_message deliver
  forward m update = let (sym, msg) = map_adapter_update_to_message update in deliver m sym msg

  unfoldable pub forward_all : MarketDataManager D → List (OrderbookUpdate D) → MarketDataManager D
  unfolding forward
  forward_all m [] = m
  forward_all m (update ∷ updates) = forward_all (forward m update) updates
