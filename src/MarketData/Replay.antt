-- ===== src/MarketData/Replay.antt =====
-- The deltas that a worker buffers before its first snapshot.
use mathlib.Core.List.{append-nil, append_assoc}
use arb_core.Common.{
  ℕ, ◌+◌, ◌≤◌, ◌≡◌, refl, false, Option, none, List, [], ◌∷◌, ◌++◌, map, String, arith, length,
  length-append, ◌∙◌, ap,
}
use arb_core.Common.Dict.{Dict}
use arb_core.Decimal.{Decimal}
use arb_core.Orderbook.{OrderbookSnapshot, OrderbookDelta, new, apply_snapshot}
use arb_core.MarketData.Worker.{
  SymbolMessage, snapshot, delta, SnapshotFn, SymbolWorkerConfig, Worker, fetch_snapshot_for,
  handle_message, run_worker, start_worker, per_symbol_worker, resync, buffer_delta,
}

module _ {D : Type 0} ⦃d : Decimal D⦄ (cfg : SymbolWorkerConfig) (providers : Dict (SnapshotFn D))
    (clock : ℕ → ℕ) where
  -- a worker without a snapshot
  abbrev waiting : String → List (OrderbookDelta D) → Worker D
  waiting symbol buffered = record {
    symbol = symbol;
    book = new symbol;
    buffered = buffered;
    snapshot_applied = false;
  }

  buffer_one :
      (symbol : String) (buffered : List (OrderbookDelta D)) (x : OrderbookDelta D)
      (fetched : Option (OrderbookSnapshot D)) (now : ℕ)
      → length buffered + 1 ≤ cfg.max_buffered_deltas
      → buffer_delta cfg (waiting symbol buffered) x fetched now
        ≡ waiting symbol (buffered ++ (x ∷ []))
  unfolding buffer_delta
  buffer_one symbol buffered x fetched now h = ground arith

  buffer_all :
      (i : ℕ) (symbol : String) (early buffered : List (OrderbookDelta D))
      (messages : List (SymbolMessage D))
      → length buffered + length early ≤ cfg.max_buffered_deltas
      → run_worker cfg providers clock i (waiting symbol buffered) (map delta early ++ messages)
        ≡ run_worker cfg providers clock
            (i + length early)
            (waiting symbol (buffered ++ early))
            messages
  unfolding run_worker handle_message
  buffer_all i symbol [] buffered messages h = ground (arith, append-nil buffered)
  buffer_all i symbol (x ∷ xs) buffered messages h =
      let fetched = fetch_snapshot_for providers symbol i in
      let room = buffer_one symbol buffered x fetched (clock i) (ground arith) in
      let ih =
        buffer_all (i + 1) symbol xs (buffered ++ (x ∷ [])) messages
          (ground (arith, length-append buffered (x ∷ []))) in
      ap (λ w. run_worker cfg providers clock (i + 1) w (map delta xs ++ messages)) room
      ∙ ih
      ∙ ground (arith, append_assoc buffered (x ∷ []) xs)

  snapshot_clears :
      (i : ℕ) (symbol : String) (buffered other : List (OrderbookDelta D))
      (snap : OrderbookSnapshot D) (messages : List (SymbolMessage D))
      → run_worker cfg providers clock i (waiting symbol buffered) (snapshot snap ∷ messages)
        ≡ run_worker cfg providers clock i (waiting symbol other) (snapshot snap ∷ messages)
  unfolding run_worker handle_message apply_snapshot
  snapshot_clears i symbol buffered other snap messages = refl

  -- A worker whose first call of its provider brings no snapshot, and that gets deltas, no more of them than it may buffer, and
  -- then a snapshot ends as if the deltas had never come, whatever follows: they are not replayed.
  pub early_deltas-dropped :
      (symbol : String) (early : List (OrderbookDelta D)) (snap : OrderbookSnapshot D)
      (messages : List (SymbolMessage D))
      → fetch_snapshot_for providers symbol 0 ≡ none
      → length early ≤ cfg.max_buffered_deltas
      → per_symbol_worker cfg providers clock symbol (map delta early ++ snapshot snap ∷ messages)
        ≡ run_worker cfg providers clock
            (1 + length early)
            (waiting symbol [])
            (snapshot snap ∷ messages)
  unfolding per_symbol_worker start_worker resync
  early_deltas-dropped symbol early snap messages h k =
      let start : start_worker symbol providers (clock 0) ≡ waiting symbol [] =
        ap (λ f. resync (waiting symbol []) f (clock 0)) h in
      ap (λ w. run_worker cfg providers clock 1 w (map delta early ++ snapshot snap ∷ messages))
        start
      ∙ buffer_all 1 symbol early [] (snapshot snap ∷ messages) (omega (arith, k))
      ∙ snapshot_clears (1 + length early) symbol early [] snap messages
