-- ===== src/MarketData/Tracking.antt =====
-- What the book of a worker holds while the numbers of its updates stay near.
use arb_core.Common.{
  ℕ, suc, ◌+◌, ◌-◌, ◌≤◌, ◌≡◌, refl, sym, subst, ap, ◌∙◌, true, false, Option, none, some, List, [],
  ◌∷◌, ◌++◌, map, arith, length,
}
use arb_core.Common.Dict.{Dict}
use arb_core.Decimal.{Decimal}
use arb_core.Orderbook.Ladder.{PriceMap}
use arb_core.Orderbook.Sequence.{too_far}
use arb_core.Orderbook.{
  Level, OrderbookSnapshot, apply_delta_with_gap_tolerance, changed, change_levels,
}
use arb_core.MarketData.Worker.{
  SymbolMessage, SnapshotFn, SymbolWorkerConfig, Worker, fetch_snapshot_for, handle_message,
  live_delta, run_worker,
}
use arb_core.MarketData.Wiring.{OrderbookUpdate, map_adapter_update_to_message}

abbrev pub or_number : ℕ → Option ℕ → ℕ
or_number n none = n
or_number n (some s) = s

module _ {D : Type 0} where
  abbrev pub message_of : OrderbookUpdate D → SymbolMessage D
  message_of update = (map_adapter_update_to_message update).1

  -- Changes that follow a book at number n, with no number left out.
  abbrev pub FollowOn : ℕ → List (OrderbookUpdate D) → Type 0
  FollowOn n [] = Unit
  FollowOn n (u ∷ us) = (u.is_snapshot ≡ false) × (u.sequence ≡ some (suc n)) × FollowOn (suc n) us

  -- Changes whose numbers may leap: the one before each is no more than `gap` away from the number of
  -- the book.
  abbrev pub StaysNear : ℕ → ℕ → List (OrderbookUpdate D) → Type 0
  StaysNear gap n [] = Unit
  StaysNear gap n (u ∷ us) =
      (u.is_snapshot ≡ false)
      × ((s : ℕ) × (u.sequence ≡ some s)
          × (s - 1 ≤ n + gap)
          × (n ≤ (s - 1) + gap)
          × StaysNear gap s us)

  -- the number of the last of the changes
  abbrev pub last_number : ℕ → List (OrderbookUpdate D) → ℕ
  last_number n [] = n
  last_number n (u ∷ us) = last_number (or_number n u.sequence) us

  pub FollowOn-StaysNear :
      (gap n : ℕ) (us : List (OrderbookUpdate D))
      → FollowOn n us
      → StaysNear gap n us × (last_number n us ≡ n + length us)
  FollowOn-StaysNear gap n [] f = (tt, omega arith)
  FollowOn-StaysNear gap n (u ∷ us) (d, s, fs) =
      let (near, last) = FollowOn-StaysNear gap (suc n) us fs in
      let step : last_number n (u ∷ us) ≡ last_number (suc n) us =
        ap (λ k. last_number (or_number n k) us) s in
      ((d, (suc n, s, omega arith, omega arith, near)), step ∙ omega arith)

  abbrev pub all_bids : List (OrderbookUpdate D) → List (Level D)
  all_bids [] = []
  all_bids (u ∷ us) = u.bids ++ all_bids us

  abbrev pub all_asks : List (OrderbookUpdate D) → List (Level D)
  all_asks [] = []
  all_asks (u ∷ us) = u.asks ++ all_asks us

module _ {D : Type 0} ⦃d : Decimal D⦄ where
  change_levels-append :
      (xs ys : List (Level D)) (m : PriceMap D)
      → change_levels (xs ++ ys) m ≡ change_levels ys (change_levels xs m)
  unfolding change_levels
  change_levels-append [] ys m = refl
  change_levels-append (x ∷ xs) ys m = change_levels-append xs ys _

  -- The worker is live, and its book has these sides and this number.
  pub record IsAt (w : Worker D) (bids asks : PriceMap D) (n : ℕ) : Type 0 where
    pub live : w.snapshot_applied ≡ true
    pub bids_are : w.book.inner.bids ≡ bids
    pub asks_are : w.book.inner.asks ≡ asks
    pub number : w.book.inner.last_seq ≡ some n
    pub in_sync : w.book.resync_required ≡ false

  module _ (cfg : SymbolWorkerConfig) where
    message-IsAt :
        (w : Worker D) (u : OrderbookUpdate D) (bids asks : PriceMap D) (n s : ℕ)
        (fetched : Option (OrderbookSnapshot D)) (now : ℕ)
        → IsAt w bids asks n
        → u.is_snapshot ≡ false
        → u.sequence ≡ some s
        → s - 1 ≤ n + cfg.max_acceptable_sequence_gap
        → n ≤ (s - 1) + cfg.max_acceptable_sequence_gap
        → IsAt
            (handle_message cfg w (message_of u) fetched now)
            (change_levels u.bids bids)
            (change_levels u.asks asks)
            s
    unfolding map_adapter_update_to_message handle_message live_delta apply_delta_with_gap_tolerance
        too_far changed
    message-IsAt w u bids asks n s fetched now at f e le ge = ground arith

    pub run-IsAt :
        (providers : Dict (SnapshotFn D)) (clock : ℕ → ℕ) (i : ℕ) (w : Worker D)
        (us : List (OrderbookUpdate D)) (bids asks : PriceMap D) (n : ℕ)
        → IsAt w bids asks n
        → StaysNear cfg.max_acceptable_sequence_gap n us
        → IsAt
            (run_worker cfg providers clock i w (map message_of us))
            (change_levels (all_bids us) bids)
            (change_levels (all_asks us) asks)
            (last_number n us)
    unfolding run_worker change_levels
    run-IsAt providers clock i w [] bids asks n at f = at
    run-IsAt providers clock i w (u ∷ us) bids asks n at (f, (s, e, le, ge, fs)) =
        let fetched = fetch_snapshot_for providers w.symbol i in
        let at' = message-IsAt w u bids asks n s fetched (clock i) at f e le ge in
        let ih = run-IsAt providers clock (i + 1) _ us _ _ s at' fs in
        let last : last_number n (u ∷ us) ≡ last_number s us =
          ap (λ k. last_number (or_number n k) us) e in
        subst (IsAt _ _ _) (sym last) (
          rw
            (
              change_levels-append u.bids (all_bids us) bids,
              change_levels-append u.asks (all_asks us) asks,
            )
            ih)
