-- ===== src/MarketData/Worker.antt =====
-- manager.rs: the worker of one symbol, the single writer of its book. A call of a snapshot provider
-- is a request to the exchange, so its reply is a parameter, by the number of the message during
-- which it is made; `none` is an error, which every caller drops.
use arb_core.Common.{
  ℕ, ◌+◌, Bool, true, false, Option, none, some, List, [], ◌∷◌, ◌++◌, String, ok, err, panic, leb,
  length, if◌then◌else◌,
}
use arb_core.Common.Dict.{Dict, find}
use arb_core.Decimal.{Decimal}
use arb_core.Orderbook.{
  OrderBook, OrderbookSnapshot, OrderbookDelta, BookResult, new, apply_snapshot,
  apply_delta_with_gap_tolerance,
}

pub data SymbolMessage (D : Type 0) : Type 0 where
  snapshot : OrderbookSnapshot D → SymbolMessage D
  delta : OrderbookDelta D → SymbolMessage D

abbrev pub SnapshotFn : Type 0 → Type 0
SnapshotFn D = String → ℕ → Option (OrderbookSnapshot D)

pub record SymbolWorkerConfig : Type 0 where
  pub max_buffered_deltas : ℕ
  pub snapshot_wait_ms : ℕ
  pub max_acceptable_sequence_gap : ℕ

abbrev pub default_worker_config : SymbolWorkerConfig
default_worker_config = record {
  max_buffered_deltas = 5000;
  snapshot_wait_ms = 5000;
  max_acceptable_sequence_gap = 1000;
}

-- the local variables of the worker
pub record Worker (D : Type 0) : Type 0 where
  pub symbol : String
  pub book : OrderBook D
  pub buffered : List (OrderbookDelta D)
  pub snapshot_applied : Bool

module _ {D : Type 0} where
  unfoldable pub fetch_snapshot_for :
      Dict (SnapshotFn D) → String → ℕ → Option (OrderbookSnapshot D)
  fetch_snapshot_for providers symbol i = elim (find providers symbol) [
    | none ↦ none
    | some sf ↦ sf symbol i
  ]

module _ {D : Type 0} ⦃d : Decimal D⦄ where
  abbrev applied : Worker D → BookResult D → Worker D
  applied w (book, ok r) = record w { book = book; snapshot_applied = true }
  applied w (book, err e) = record w { book = book }
  applied w (book, panic) = record w { book = book }

  -- take over a fetched snapshot, if there is one
  unfoldable pub resync : Worker D → Option (OrderbookSnapshot D) → ℕ → Worker D
  resync w none now = w
  resync w (some snap) now = applied w (apply_snapshot w.book snap now)

  -- a delta before any snapshot
  unfoldable pub buffer_delta :
      SymbolWorkerConfig → Worker D → OrderbookDelta D → Option (OrderbookSnapshot D) → ℕ → Worker D
  unfolding resync
  buffer_delta cfg w new_delta fetched now =
      if leb cfg.max_buffered_deltas (length w.buffered)
      then resync (record w { buffered = [] }) fetched now
      else record w { buffered = w.buffered ++ (new_delta ∷ []) }

  -- the book after a delta that was refused
  unfoldable pub recover : OrderBook D → Option (OrderbookSnapshot D) → ℕ → OrderBook D
  recover book (some snap) now = (apply_snapshot book snap now).0
  recover book none now = record book { resync_required = true }

  abbrev pub after_delta : BookResult D → Option (OrderbookSnapshot D) → ℕ → OrderBook D
  after_delta (book, ok r) fetched now = book
  after_delta (book, err e) fetched now = recover book fetched now
  after_delta (book, panic) fetched now = book

  -- a delta once there is a snapshot
  unfoldable pub live_delta :
      SymbolWorkerConfig → Worker D → OrderbookDelta D → Option (OrderbookSnapshot D) → ℕ → Worker D
  unfolding recover
  live_delta cfg w new_delta fetched now = record w {
    book =
        after_delta
          (apply_delta_with_gap_tolerance w.book new_delta cfg.max_acceptable_sequence_gap now)
          fetched now;
  }

  -- The body of the worker's loop. `fetched` is what the provider would reply, `now` the clock.
  unfoldable pub handle_message :
      SymbolWorkerConfig → Worker D → SymbolMessage D → Option (OrderbookSnapshot D) → ℕ → Worker D
  unfolding buffer_delta live_delta
  handle_message cfg w (snapshot snap) fetched now =
      record (applied w (apply_snapshot w.book snap now)) { buffered = [] }
  handle_message cfg w (delta new_delta) fetched now =
      if w.snapshot_applied
      then live_delta cfg w new_delta fetched now
      else buffer_delta cfg w new_delta fetched now

  unfoldable pub start_worker : String → Dict (SnapshotFn D) → ℕ → Worker D
  unfolding resync fetch_snapshot_for
  start_worker symbol providers now =
      resync
        (record { symbol = symbol; book = new symbol; buffered = []; snapshot_applied = false })
        (fetch_snapshot_for providers symbol 0) now

  -- the loop, from message i on
  unfoldable pub run_worker :
      SymbolWorkerConfig
      → Dict (SnapshotFn D)
      → (ℕ → ℕ)
      → ℕ
      → Worker D
      → List (SymbolMessage D)
      → Worker D
  unfolding handle_message
  run_worker cfg providers clock i w [] = w
  run_worker cfg providers clock i w (msg ∷ rest) =
      run_worker cfg providers clock (i + 1)
        (handle_message cfg w msg (fetch_snapshot_for providers w.symbol i) (clock i)) rest

  unfoldable pub per_symbol_worker :
      SymbolWorkerConfig
      → Dict (SnapshotFn D)
      → (ℕ → ℕ)
      → String
      → List (SymbolMessage D)
      → Worker D
  unfolding start_worker run_worker
  per_symbol_worker cfg providers clock symbol messages =
      run_worker cfg providers clock 1 (start_worker symbol providers (clock 0)) messages
