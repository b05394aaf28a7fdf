-- ===== src/MarketData/Live.antt =====
-- From the adapter to the book of a worker: the wiring, the forwarder and the worker together.
mod Tests
use arb_core.Common.{
  ℕ, ◌+◌, ◌≡◌, refl, sym, ap, ◌∙◌, Bool, true, false, Option, none, some, List, [], ◌∷◌, map,
  String, str_eq, arith, length, if◌then◌else◌,
}
use arb_core.Common.Dict.{Dict, find}
use arb_core.Decimal.{Decimal}
use arb_core.Orderbook.{OrderbookSnapshot, new, apply_snapshot, load_levels, change_levels}
use arb_core.MarketData.Worker.{
  SymbolMessage, SnapshotFn, SymbolWorkerConfig, fetch_snapshot_for, resync, start_worker,
  per_symbol_worker,
}
use arb_core.MarketData.Wiring.{
  OrderbookUpdate, Sender, MarketDataManager, map_adapter_snapshot_to_canonical,
}
use arb_core.MarketData.Forwarding.{more, messages_for}
use arb_core.MarketData.Tracking.{
  message_of, StaysNear, last_number, FollowOn-StaysNear, FollowOn, all_bids, all_asks, IsAt,
  run-IsAt,
}
use arb_core.MarketData.Startup.{
  ExchangeAdapter, snapshot_fn, is_listed, wire_adapter_to_manager, wire_adapter_to_manager_lem,
}

module _ {D : Type 0} where
  abbrev pub updates_of : String → List (OrderbookUpdate D) → List (OrderbookUpdate D)
  updates_of symbol [] = []
  updates_of symbol (u ∷ us) =
      if str_eq symbol u.symbol then u ∷ updates_of symbol us else updates_of symbol us

  -- The adapter connects, and its updates of this symbol follow on from its first snapshot.
  pub record IsSteady (adapter : ExchangeAdapter D) (symbols : List String) (symbol : String)
      (snap : OrderbookUpdate D) (updates : List (OrderbookUpdate D)) (n : ℕ) : Type 0 where
    pub connects : adapter.connect_ws symbols ≡ some updates
    pub listed : is_listed symbol symbols ≡ true
    pub first : adapter.get_snapshot symbol 0 ≡ some snap
    pub numbered : snap.sequence ≡ some n
    pub follow : FollowOn n (updates_of symbol updates)

  -- The same, with updates whose numbers stay near.
  pub record IsNear (gap : ℕ) (adapter : ExchangeAdapter D) (symbols : List String)
      (symbol : String) (snap : OrderbookUpdate D) (updates : List (OrderbookUpdate D)) (n : ℕ)
      : Type 0 where
    pub connects : adapter.connect_ws symbols ≡ some updates
    pub listed : is_listed symbol symbols ≡ true
    pub first : adapter.get_snapshot symbol 0 ≡ some snap
    pub numbered : snap.sequence ≡ some n
    pub near : StaysNear gap n (updates_of symbol updates)

  messages_for-map :
      (symbol : String) (us : List (OrderbookUpdate D))
      → messages_for symbol us ≡ map message_of (updates_of symbol us)
  unfolding messages_for
  messages_for-map symbol [] = refl
  messages_for-map symbol (u ∷ us) = ground (arith, messages_for-map symbol us)

module _ {D : Type 0} ⦃d : Decimal D⦄ (cfg : SymbolWorkerConfig) (clock : ℕ → ℕ) where
  start-IsAt :
      (symbol : String) (providers : Dict (SnapshotFn D)) (snap : OrderbookSnapshot D) (n : ℕ)
      → fetch_snapshot_for providers symbol 0 ≡ some snap
      → snap.sequence ≡ some n
      → IsAt
          (start_worker symbol providers (clock 0))
          (load_levels snap.bids [])
          (load_levels snap.asks [])
          n
  unfolding start_worker resync apply_snapshot
  start-IsAt symbol providers snap n fetched s =
      rw (fetched, start_worker)
        (record { live = refl; bids_are = refl; asks_are = refl; number = s; in_sync = refl })

  -- A worker whose provider has the snapshot numbered n to give at its start, and which then gets
  -- changes whose numbers stay near.
  per_symbol_worker-IsAt :
      (symbol : String) (providers : Dict (SnapshotFn D)) (snap : OrderbookSnapshot D)
      (us : List (OrderbookUpdate D)) (n : ℕ)
      → fetch_snapshot_for providers symbol 0 ≡ some snap
      → snap.sequence ≡ some n
      → StaysNear cfg.max_acceptable_sequence_gap n us
      → IsAt
          (per_symbol_worker cfg providers clock symbol (map message_of us))
          (change_levels (all_bids us) (load_levels snap.bids []))
          (change_levels (all_asks us) (load_levels snap.asks []))
          (last_number n us)
  unfolding per_symbol_worker
  per_symbol_worker-IsAt symbol providers snap us n fetched s f =
      run-IsAt cfg providers clock 1 _ us _ _ n (start-IsAt symbol providers snap n fetched s) f

  module _ (adapter : ExchangeAdapter D) where
    -- the same for numbers that may leap, as far as the worker tolerates
    pub wired_worker-IsNear :
        (m : MarketDataManager D) (symbols : List String) (symbol : String)
        (snap : OrderbookUpdate D) (updates : List (OrderbookUpdate D)) (n : ℕ)
        → find m.symbol_senders symbol ≡ none
        → IsNear cfg.max_acceptable_sequence_gap adapter symbols symbol snap updates n
        → let m' = (wire_adapter_to_manager adapter m symbols).0 in
          let us = updates_of symbol updates in
          (tx : Sender D) × (find m'.symbol_senders symbol ≡ some tx)
          × IsAt
              (per_symbol_worker cfg m'.snapshot_providers clock symbol tx.sent)
              (change_levels (all_bids us) (load_levels snap.bids []))
              (change_levels (all_asks us) (load_levels snap.asks []))
              (last_number n us)
    unfolding map_adapter_snapshot_to_canonical fetch_snapshot_for snapshot_fn
    wired_worker-IsNear m symbols symbol snap updates n fresh v =
        let m' = (wire_adapter_to_manager adapter m symbols).0 in
        let wired = (wire_adapter_to_manager_lem adapter m symbols).1 symbol in
        let us = updates_of symbol updates in
        let tx : Sender D = record { sent = map message_of us; open_ = true } in
        let at = wired.sender_of_listed v.listed in
        let listed = v.listed in
        let first = v.first in
        let connects = v.connects in
        let found : find m'.symbol_senders symbol ≡ some tx =
          ground (arith, messages_for-map symbol updates, at) in
        let with_provider = wired.provider in
        let fetched : fetch_snapshot_for m'.snapshot_providers symbol 0
            ≡ some (map_adapter_snapshot_to_canonical snap) =
          ground (arith, with_provider) in
        (
          tx,
          found,
          per_symbol_worker-IsAt symbol m'.snapshot_providers
              (map_adapter_snapshot_to_canonical snap) us n fetched v.numbered v.near,
        )

    -- After the wiring of an adapter to a manager that does not have the symbol, the symbol's worker,
    -- fed with what was sent to it, holds exactly the first snapshot of the adapter with all the
    -- adapter's changes of this symbol applied in their order; provided that these are numbered from
    -- the snapshot on without a gap. The updates of other symbols may be anything.
    pub wired_worker-IsAt :
        (m : MarketDataManager D) (symbols : List String) (symbol : String)
        (snap : OrderbookUpdate D) (updates : List (OrderbookUpdate D)) (n : ℕ)
        → find m.symbol_senders symbol ≡ none
        → IsSteady adapter symbols symbol snap updates n
        → let m' = (wire_adapter_to_manager adapter m symbols).0 in
          let us = updates_of symbol updates in
          (tx : Sender D) × (find m'.symbol_senders symbol ≡ some tx)
          × IsAt
              (per_symbol_worker cfg m'.snapshot_providers clock symbol tx.sent)
              (change_levels (all_bids us) (load_levels snap.bids []))
              (change_levels (all_asks us) (load_levels snap.asks []))
              (n + length us)
    wired_worker-IsAt m symbols symbol snap updates n fresh v =
        let us = updates_of symbol updates in
        let (near, last) = FollowOn-StaysNear cfg.max_acceptable_sequence_gap n us v.follow in
        rw (← last) (
          wired_worker-IsNear m symbols symbol snap updates n fresh (record {
            connects = v.connects;
            listed = v.listed;
            first = v.first;
            numbered = v.numbered;
            near = near;
          }))
