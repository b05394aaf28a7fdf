-- ===== src/MarketData/Buffering.antt =====
-- What becomes of the deltas of a worker, before its first snapshot and after.
use arb_core.Common.{
  ℕ, ◌+◌, ◌≤◌, ◌≡◌, refl, inl, inr, true, false, Option, none, some, List, [], ◌∷◌, String, arith,
  if-elim, length, length-append, All, Bool-cases, ok, err, panic, leb,
}
use arb_core.Common.Dict.{Dict}
use arb_core.Decimal.{Decimal, IsOrdered}
use arb_core.Orderbook.{
  BookResult, OrderbookSnapshot, OrderbookDelta, new, apply_snapshot,
  apply_delta_with_gap_tolerance,
}
use arb_core.Orderbook.Validity.{
  IsValid, IsNonnegative, apply_snapshot-IsValid, apply_delta-IsValid, new-IsValid,
}
use arb_core.MarketData.Worker.{
  SymbolMessage, snapshot, delta, SnapshotFn, SymbolWorkerConfig, Worker, fetch_snapshot_for,
  handle_message, run_worker, start_worker, per_symbol_worker, resync, buffer_delta, live_delta,
  after_delta, recover,
}

module _ {D : Type 0} ⦃d : Decimal D⦄ where
  -- A message whose deltas carry no negative size.
  abbrev pub IsFair : SymbolMessage D → Type 0
  IsFair (snapshot snap) = Unit
  IsFair (delta new_delta) = IsNonnegative new_delta.bids × IsNonnegative new_delta.asks

  pub record IsSound (cfg : SymbolWorkerConfig) (w : Worker D) : Type 0 where
    pub valid : IsValid w.book.inner
    pub bounded : length w.buffered ≤ cfg.max_buffered_deltas
    pub untouched : w.snapshot_applied ≡ false → w.book ≡ new w.symbol
    pub live : w.snapshot_applied ≡ true → w.buffered ≡ []

  module _ ⦃o : IsOrdered D⦄ where
    after_delta-IsValid :
        (r : BookResult D) (fetched : Option (OrderbookSnapshot D)) (now : ℕ)
        → IsValid r.0.inner
        → IsValid (after_delta r fetched now).inner
    unfolding recover
    after_delta-IsValid (book, ok u) fetched now v = v
    after_delta-IsValid (book, err e) (some snap) now v = apply_snapshot-IsValid book snap now
    after_delta-IsValid (book, err e) none now v = record {
      bids_valid = v.bids_valid;
      asks_valid = v.asks_valid;
    }
    after_delta-IsValid (book, panic) fetched now v = v

    live_delta-IsSound :
        (cfg : SymbolWorkerConfig) (w : Worker D) (new_delta : OrderbookDelta D)
        (fetched : Option (OrderbookSnapshot D)) (now : ℕ)
        → IsFair (delta new_delta)
        → w.snapshot_applied ≡ true
        → IsSound cfg w
        → IsSound cfg (live_delta cfg w new_delta fetched now)
    unfolding live_delta
    live_delta-IsSound cfg w new_delta fetched now f h v = record {
      valid =
          after_delta-IsValid
            (apply_delta_with_gap_tolerance w.book new_delta cfg.max_acceptable_sequence_gap now)
            fetched now
            (apply_delta-IsValid w.book new_delta cfg.max_acceptable_sequence_gap now f.0 f.1
              v.valid).1;
      bounded = v.bounded;
      untouched = λ n. absurd (ground arith);
      live = v.live;
    }

    resync-IsSound :
        (cfg : SymbolWorkerConfig) (w : Worker D) (fetched : Option (OrderbookSnapshot D)) (now : ℕ)
        → w.buffered ≡ []
        → IsSound cfg w
        → IsSound cfg (resync w fetched now)
    unfolding resync apply_snapshot
    resync-IsSound cfg w none now h v = v
    resync-IsSound cfg w (some snap) now h v = record {
      valid = apply_snapshot-IsValid w.book snap now;
      bounded = v.bounded;
      untouched = λ n. absurd (ground arith);
      live = λ l. h;
    }

    buffer_delta-IsSound :
        (cfg : SymbolWorkerConfig) (w : Worker D) (new_delta : OrderbookDelta D)
        (fetched : Option (OrderbookSnapshot D)) (now : ℕ)
        → w.snapshot_applied ≡ false
        → IsSound cfg w
        → IsSound cfg (buffer_delta cfg w new_delta fetched now)
    unfolding buffer_delta
    buffer_delta-IsSound cfg w new_delta fetched now h v =
        elim (Bool-cases (leb cfg.max_buffered_deltas (length w.buffered))) [
          | inl full ↦ rw full (
              resync-IsSound cfg (record w { buffered = [] }) fetched now refl
                (record {
                  valid = v.valid;
                  bounded = omega arith;
                  untouched = v.untouched;
                  live = λ l. refl;
                }))
          | inr room ↦ rw room (record {
            valid = v.valid;
            bounded = ground (arith, length-append w.buffered (new_delta ∷ []));
            untouched = v.untouched;
            live = λ l. absurd (ground arith);
          })
        ]

    handle_message-IsSound :
        (cfg : SymbolWorkerConfig) (w : Worker D) (msg : SymbolMessage D)
        (fetched : Option (OrderbookSnapshot D)) (now : ℕ)
        → IsFair msg
        → IsSound cfg w
        → IsSound cfg (handle_message cfg w msg fetched now)
    unfolding handle_message apply_snapshot
    handle_message-IsSound cfg w (snapshot snap) fetched now f v = record {
      valid = apply_snapshot-IsValid w.book snap now;
      bounded = omega arith;
      untouched = λ n. absurd (ground arith);
      live = λ l. refl;
    }
    handle_message-IsSound cfg w (delta new_delta) fetched now f v =
        if-elim (IsSound cfg) w.snapshot_applied (live_delta cfg w new_delta fetched now)
          (buffer_delta cfg w new_delta fetched now)
          (λ h. live_delta-IsSound cfg w new_delta fetched now f h v)
          (λ h. buffer_delta-IsSound cfg w new_delta fetched now h v)

    run_worker-IsSound :
        (cfg : SymbolWorkerConfig) (providers : Dict (SnapshotFn D)) (clock : ℕ → ℕ) (i : ℕ)
        (w : Worker D) (messages : List (SymbolMessage D))
        → All IsFair messages
        → IsSound cfg w
        → IsSound cfg (run_worker cfg providers clock i w messages)
    unfolding run_worker
    run_worker-IsSound cfg providers clock i w [] f v = v
    run_worker-IsSound cfg providers clock i w (msg ∷ rest) f v =
        run_worker-IsSound cfg providers clock (i + 1) _ rest f.1 (
          handle_message-IsSound cfg w msg (fetch_snapshot_for providers w.symbol i) (clock i) f.0
            v)

    -- Whatever messages a worker gets and its provider replies, as long as no delta carries a
    -- negative size: its book is valid, it never buffers more deltas than configured, until it has a
    -- snapshot its book is that of `OrderBook::new`, and from then on it buffers nothing.
    pub per_symbol_worker-IsSound :
        (cfg : SymbolWorkerConfig) (providers : Dict (SnapshotFn D)) (clock : ℕ → ℕ)
        (symbol : String) (messages : List (SymbolMessage D))
        → All IsFair messages
        → IsSound cfg (per_symbol_worker cfg providers clock symbol messages)
    unfolding per_symbol_worker start_worker
    per_symbol_worker-IsSound cfg providers clock symbol messages f =
        run_worker-IsSound cfg providers clock 1 _ messages f (
          resync-IsSound cfg
            (record { symbol = symbol; book = new symbol; buffered = []; snapshot_applied = false })
            (fetch_snapshot_for providers symbol 0) (clock 0) refl
            (record {
              valid = new-IsValid symbol;
              bounded = omega arith;
              untouched = λ h. refl;
              live = λ h. refl;
            }))
