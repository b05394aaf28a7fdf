-- ===== src/Orderbook/Tests.antt =====
-- The order book at concrete inputs, over whole numbers.
use arb_core.Common.{ℕ, ◌≡◌, refl, false, none, some, [], ◌∷◌, head?, ok, err, ◌⊎◌}
use arb_core.Decimal.{◌≼◌, ◌≺◌}
use arb_core.Decimal.Whole.{
  ℤ, pos, ◌*ℤ◌, whole, whole-IsOrdered, whole-IsAdditive, whole-DivDefined,
}
use arb_core.Orderbook.Ladder.{get, insert, remove}
use arb_core.Orderbook.Validity.{IsValid, apply_snapshot-IsValid, apply_delta-IsValid}
use arb_core.Orderbook.Depth.{last_size, last_positive_size, get-apply_snapshot, get-change_levels}
use arb_core.Orderbook.Gaps.{IsRefused, IsAccepted, apply_delta_with_gap_tolerance_lem}
use arb_core.Orderbook.Fill.{depth, cost, estimate_fill_price_lem}
use arb_core.Orderbook.Views.{IsBestFirst, top_n-IsBestFirst}
use arb_core.Orderbook.Copy.{apply_snapshot-snapshot_copy}
use arb_core.Orderbook.Sequence.{mismatch, too_far}
use arb_core.Orderbook.{
  Level, OrderBook, OrderbookDelta, OrderbookSnapshot, insufficient_depth, sequence_error, bid, ask,
  new, apply_snapshot, apply_delta, apply_delta_with_gap_tolerance, load_levels, change_levels,
  changed, estimate_fill_price, opposite, EstimatedFill, best_bid, best_ask, top_n, snapshot_copy,
}

abbrev lvl : ℕ → ℕ → Level ℤ
lvl p s = record { price = pos p; size = pos s }

abbrev opening : OrderbookSnapshot ℤ
opening = record {
  symbol = "BTCUSDT";
  bids = lvl 99 5 ∷ lvl 98 0 ∷ lvl 97 7 ∷ [];
  asks = lvl 103 2 ∷ lvl 101 4 ∷ [];
  sequence = some 10;
  ts = none;
}

abbrev sample : OrderBook ℤ
unfolding new apply_snapshot load_levels insert
sample = (apply_snapshot (new "BTCUSDT") opening 1000).0

abbrev update : OrderbookDelta ℤ
update = record {
  symbol = "BTCUSDT";
  bids = lvl 97 0 ∷ lvl 100 1 ∷ [];
  asks = lvl 101 9 ∷ [];
  prev_sequence = some 12;
  sequence = some 13;
  ts = none;
}

sample_sides :
    (sample.inner.bids ≡ (pos 97, pos 7) ∷ (pos 99, pos 5) ∷ [])
    × (sample.inner.asks ≡ (pos 101, pos 4) ∷ (pos 103, pos 2) ∷ [])
unfolding sample
sample_sides = (refl, refl)

strict_refuses : (apply_delta sample update 1001).1 ≡ err (sequence_error 10 12)
unfolding sample apply_delta mismatch
strict_refuses = refl

tolerant_accepts :
    (apply_delta_with_gap_tolerance sample update 5 1001).0.inner.bids
    ≡ (pos 99, pos 5) ∷ (pos 100, pos 1) ∷ []
unfolding sample apply_delta_with_gap_tolerance too_far changed change_levels remove
tolerant_accepts = refl

apply_snapshot-IsValid_example : IsValid sample.inner
unfolding sample
apply_snapshot-IsValid_example = apply_snapshot-IsValid (new "BTCUSDT") opening 1000

apply_delta-IsValid_example :
    IsValid (apply_delta sample update 1001).0.inner
    × IsValid (apply_delta_with_gap_tolerance sample update 5 1001).0.inner
apply_delta-IsValid_example =
    apply_delta-IsValid sample update 5 1001 (refl, (refl, tt)) (refl, tt)
      apply_snapshot-IsValid_example

get-apply_snapshot_example :
    let b' = (apply_snapshot sample opening 7).0 in
    (get (pos 97) b'.inner.bids ≡ last_positive_size (pos 97) opening.bids)
    × (get (pos 97) b'.inner.asks ≡ last_positive_size (pos 97) opening.asks)
get-apply_snapshot_example = get-apply_snapshot (pos 97) sample opening 7

read_97 : last_positive_size (pos 97) opening.bids ≡ some (pos 7)
unfolding last_positive_size
read_97 = refl

get-change_levels_example : get (pos 97) (change_levels update.bids sample.inner.bids) ≡ none
unfolding sample last_size get
get-change_levels_example =
    get-change_levels (pos 97) update.bids sample.inner.bids
      apply_snapshot-IsValid_example.bids_valid.0

apply_delta_with_gap_tolerance_lem_example :
    let r = apply_delta_with_gap_tolerance sample update 1 7 in
    IsRefused sample update 1 r ⊎ IsAccepted sample update 1 7 r
apply_delta_with_gap_tolerance_lem_example = apply_delta_with_gap_tolerance_lem sample update 1 7

top_n-IsBestFirst_example :
    IsBestFirst bid (top_n sample bid 2)
    × IsBestFirst ask (top_n sample ask 2)
    × (head? (top_n sample bid 3) ≡ best_bid sample)
    × (head? (top_n sample ask 3) ≡ best_ask sample)
top_n-IsBestFirst_example = top_n-IsBestFirst sample 2 apply_snapshot-IsValid_example

apply_snapshot-snapshot_copy_example :
    let (b', r) = apply_snapshot (new "ETHBTC") (snapshot_copy sample 5) 6 in
    (b'.inner.bids ≡ sample.inner.bids)
    × (b'.inner.asks ≡ sample.inner.asks)
    × (b'.inner.last_seq ≡ sample.inner.last_seq)
    × (b'.resync_required ≡ false)
    × (r ≡ ok tt)
apply_snapshot-snapshot_copy_example =
    apply_snapshot-snapshot_copy sample (new "ETHBTC") 5 6 apply_snapshot-IsValid_example

-- five units from the asks: four at 101 and one at 103
estimate_fill_price_lem_example :
    let levels = opposite sample bid in
    (depth levels ≺ pos 5 → estimate_fill_price sample bid (pos 5) ≡ err insufficient_depth)
    × (pos 5 ≼ depth levels
        → (f : EstimatedFill ℤ) × (estimate_fill_price sample bid (pos 5) ≡ ok f)
          × (f.total_qty ≡ pos 5)
          × (f.total_notional ≡ cost levels (pos 5))
          × (whole.div f.total_notional f.total_qty ≡ some f.avg_price))
estimate_fill_price_lem_example =
    estimate_fill_price_lem whole-DivDefined sample bid (pos 5) apply_snapshot-IsValid_example refl

bought : cost (opposite sample bid) (pos 5) ≡ pos 507
unfolding sample cost ◌*ℤ◌
bought = refl
