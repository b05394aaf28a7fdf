-- ===== src/Orderbook.antt =====
-- crates/orderbook/src: types.rs, errors.rs and orderbook.rs. A book is one shared object behind a
-- lock; each method takes and releases the lock once, so a method is a function from the state to
-- the new state and its result. `now` is the reading of the clock that a method makes.
pub mod Ladder
pub mod Sequence
pub mod Validity
pub mod Depth
pub mod Gaps
pub mod Fill
pub mod Views
pub mod Copy
mod Tests
use arb_core.Common.{
  ℕ, Bool, true, false, Option, none, some, List, [], ◌∷◌, map, reverse, String, Outcome, ok, err,
  ◌>>=◌, or_panic, if◌then◌else◌, take, head?, ◌-◌,
}
use arb_core.Decimal.{Decimal, nil, is_lt, is_le, is_eq}
use Ladder.{PriceMap, insert, remove}
use Sequence.{mismatch, too_far}
use mathlib.Core.Option

pub data Side : Type 0 where
  bid ask : Side

pub record Level (D : Type 0) : Type 0 where
  pub price : D
  pub size : D

pub record OrderbookSnapshot (D : Type 0) : Type 0 where
  pub symbol : String
  pub bids : List (Level D)
  pub asks : List (Level D)
  pub sequence : Option ℕ
  pub ts : Option ℕ

pub record OrderbookDelta (D : Type 0) : Type 0 where
  pub symbol : String
  pub bids : List (Level D)
  pub asks : List (Level D)
  pub prev_sequence : Option ℕ
  pub sequence : Option ℕ
  pub ts : Option ℕ

pub record EstimatedFill (D : Type 0) : Type 0 where
  pub avg_price : D
  pub total_qty : D
  pub total_notional : D

pub data OrderBookError : Type 0 where
  sequence_error : ℕ → ℕ → OrderBookError
  insufficient_depth : OrderBookError
  invalid_argument : String → OrderBookError
  resync_needed : OrderBookError
  internal : String → OrderBookError

pub record BookInner (D : Type 0) : Type 0 where
  pub bids : PriceMap D
  pub asks : PriceMap D
  pub last_seq : Option ℕ
  pub last_update_ts : Option ℕ

pub record OrderBook (D : Type 0) : Type 0 where
  pub symbol : String
  pub inner : BookInner D
  pub resync_required : Bool

abbrev pub BookResult : Type 0 → Type 0
BookResult D = OrderBook D × Outcome OrderBookError (Unit {0})

module _ {D : Type 0} where
  unfoldable pub new : String → OrderBook D
  new symbol = record {
    symbol = symbol;
    inner = record { bids = []; asks = []; last_seq = none; last_update_ts = none };
    resync_required = false;
  }

  abbrev pub level : D × D → Level D
  level e = record { price = e.0; size = e.1 }

  unfoldable pub best_bid : OrderBook D → Option (Level D)
  best_bid b = Option.map level (head? (reverse b.inner.bids))

  unfoldable pub best_ask : OrderBook D → Option (Level D)
  best_ask b = Option.map level (head? b.inner.asks)

  unfoldable pub top_n : OrderBook D → Side → ℕ → List (Level D)
  top_n b bid n = map level (take n (reverse b.inner.bids))
  top_n b ask n = map level (take n b.inner.asks)

  -- `elapsed` is the time since an instant of the past.
  unfoldable pub snapshot_copy : OrderBook D → ℕ → OrderbookSnapshot D
  snapshot_copy b now = record {
    symbol = b.symbol;
    bids = map level (reverse b.inner.bids);
    asks = map level b.inner.asks;
    sequence = b.inner.last_seq;
    ts = Option.map (λ (then_ : ℕ). now - then_) b.inner.last_update_ts;
  }

module _ {D : Type 0} ⦃d : Decimal D⦄ where
  open d use {add, sub, mul, div}

  -- the loops over the levels of a snapshot
  unfoldable pub load_levels : List (Level D) → PriceMap D → PriceMap D
  load_levels [] m = m
  load_levels (l ∷ ls) m = load_levels ls (if is_lt nil l.size then insert l.price l.size m else m)

  -- the loops over the changes of a delta
  unfoldable pub change_levels : List (Level D) → PriceMap D → PriceMap D
  change_levels [] m = m
  change_levels (l ∷ ls) m =
      change_levels ls (if is_eq l.size nil then remove l.price m else insert l.price l.size m)

  unfoldable pub apply_snapshot : OrderBook D → OrderbookSnapshot D → ℕ → BookResult D
  apply_snapshot b snapshot now = (
    record b {
      inner = record {
        bids = load_levels snapshot.bids [];
        asks = load_levels snapshot.asks [];
        last_seq = snapshot.sequence;
        last_update_ts = some now;
      };
      resync_required = false;
    },
    ok tt,
  )

  -- the part that both ways to apply a delta share: the changes, the sequence and the time
  unfoldable pub changed : BookInner D → OrderbookDelta D → ℕ → BookInner D
  changed w delta now = record {
    bids = change_levels delta.bids w.bids;
    asks = change_levels delta.asks w.asks;
    last_seq = delta.sequence;
    last_update_ts = some now;
  }

  unfoldable pub apply_delta : OrderBook D → OrderbookDelta D → ℕ → BookResult D
  apply_delta b delta now = elim (mismatch b.inner.last_seq delta.prev_sequence) [
    | some (expected, got) ↦
        (record b { resync_required = true }, err (sequence_error expected got))
    | none ↦ (record b { inner = changed b.inner delta now }, ok tt)
  ]

  unfoldable pub apply_delta_with_gap_tolerance :
      OrderBook D → OrderbookDelta D → ℕ → ℕ → BookResult D
  apply_delta_with_gap_tolerance b delta max_gap now =
      elim (too_far max_gap b.inner.last_seq delta.prev_sequence) [
        | some (expected, got) ↦
            (record b { resync_required = true }, err (sequence_error expected got))
        | none ↦ (record b { inner = changed b.inner delta now; resync_required = false }, ok tt)
      ]

  -- The loop of `estimate_fill_price` over the levels, best first, with its three variables: what
  -- is left to fill, the filled quantity and its notional.
  unfoldable pub sweep : PriceMap D → D → D → D → D × D × D
  sweep [] target_size total_qty total_notional = (target_size, total_qty, total_notional)
  sweep ((price, size) ∷ m) target_size total_qty total_notional =
      if is_le target_size nil
      then (target_size, total_qty, total_notional)
      else (let taken = if is_le size target_size then size else target_size in
          sweep m (sub target_size taken) (add total_qty taken)
            (add total_notional (mul taken price)))

  -- the levels that an order of this side meets, best first
  abbrev pub opposite : OrderBook D → Side → PriceMap D
  opposite b bid = b.inner.asks
  opposite b ask = reverse b.inner.bids

  unfoldable pub estimate_fill_price :
      OrderBook D → Side → D → Outcome OrderBookError (EstimatedFill D)
  unfolding sweep
  estimate_fill_price b side target_size =
      if is_le target_size nil
      then err (invalid_argument "size must be > 0")
      else (let (left, total_qty, total_notional) = sweep (opposite b side) target_size nil nil in
          if is_lt nil left
          then err insufficient_depth
          else (or_panic (div total_notional total_qty) >>= λ avg_price. ok (record {
            avg_price = avg_price;
            total_qty = total_qty;
            total_notional = total_notional;
          })))
