-- ===== src/Orderbook/Validity.antt =====
-- The invariant of a book: both sides ascend strictly and hold positive sizes only.
use arb_core.Common.{ℕ, List, [], ◌∷◌, arith, All, Option-cases}
use arb_core.Decimal.{Decimal, IsOrdered, nil, ◌≺◌, ◌≼◌}
use arb_core.Orderbook.Ladder.{
  PriceMap, IsAscending, insert, remove, All-insert, All-remove, insert-IsAscending,
  remove-IsAscending,
}
use arb_core.Orderbook.Sequence.{mismatch, too_far}
use arb_core.Orderbook.{
  Level, OrderbookSnapshot, OrderbookDelta, OrderBook, BookInner, load_levels, change_levels,
  apply_snapshot, apply_delta, apply_delta_with_gap_tolerance, changed, new,
}
use arb_core.Common.{String}

module _ {D : Type 0} ⦃d : Decimal D⦄ where
  abbrev pub IsPositive : PriceMap D → Type 0
  IsPositive = All λ e. nil ≺ e.1

  abbrev pub IsLadder : PriceMap D → Type 0
  IsLadder m = IsAscending m × IsPositive m

  pub record IsValid (w : BookInner D) : Type 0 where
    pub bids_valid : IsLadder w.bids
    pub asks_valid : IsLadder w.asks

  -- What an exchange sends: no size is negative.
  abbrev pub IsNonnegative : List (Level D) → Type 0
  IsNonnegative = All λ l. nil ≼ l.size

  module _ ⦃o : IsOrdered D⦄ where
    pub load_levels-IsLadder :
        (ls : List (Level D)) (m : PriceMap D) → IsLadder m → IsLadder (load_levels ls m)
    unfolding load_levels
    load_levels-IsLadder [] m v = v
    load_levels-IsLadder (l ∷ ls) m v = ground (
      arith,
      load_levels-IsLadder ls m,
      load_levels-IsLadder ls (insert l.price l.size m),
      insert-IsAscending l.price l.size m v.0,
      All-insert (λ e. nil ≺ e.1) l.price l.size m,
    )

    pub change_levels-IsLadder :
        (ls : List (Level D)) (m : PriceMap D)
        → IsNonnegative ls
        → IsLadder m
        → IsLadder (change_levels ls m)
    unfolding change_levels
    change_levels-IsLadder [] m n v = v
    change_levels-IsLadder (l ∷ ls) m n v = ground (
      arith,
      change_levels-IsLadder ls (remove l.price m) n.1,
      change_levels-IsLadder ls (insert l.price l.size m) n.1,
      insert-IsAscending l.price l.size m v.0,
      remove-IsAscending l.price m v.0,
      All-insert (λ e. nil ≺ e.1) l.price l.size m,
      All-remove (λ e. nil ≺ e.1) l.price m v.1,
      o.eq_of_cmp nil l.size,
      o.cmp_refl nil,
      o.gt_of_lt nil l.size,
    )

    pub new-IsValid : (symbol : String) → IsValid (new {D = D} symbol).inner
    unfolding new
    new-IsValid symbol = record { bids_valid = (tt, tt); asks_valid = (tt, tt) }

    -- A snapshot makes a valid book of any book, whatever levels it carries.
    pub apply_snapshot-IsValid :
        (b : OrderBook D) (snapshot : OrderbookSnapshot D) (now : ℕ)
        → IsValid (apply_snapshot b snapshot now).0.inner
    unfolding apply_snapshot
    apply_snapshot-IsValid b snapshot now = record {
      bids_valid = load_levels-IsLadder snapshot.bids [] (tt, tt);
      asks_valid = load_levels-IsLadder snapshot.asks [] (tt, tt);
    }

    changed-IsValid :
        (w : BookInner D) (delta : OrderbookDelta D) (now : ℕ)
        → IsNonnegative delta.bids
        → IsNonnegative delta.asks
        → IsValid w
        → IsValid (changed w delta now)
    unfolding changed
    changed-IsValid w delta now nb na v = record {
      bids_valid = change_levels-IsLadder delta.bids w.bids nb v.bids_valid;
      asks_valid = change_levels-IsLadder delta.asks w.asks na v.asks_valid;
    }

    -- Both ways to apply a delta keep a book valid, whether they accept the delta or refuse it, if
    -- the delta carries no negative size.
    pub apply_delta-IsValid :
        (b : OrderBook D) (delta : OrderbookDelta D) (max_gap now : ℕ)
        → IsNonnegative delta.bids
        → IsNonnegative delta.asks
        → IsValid b.inner
        → IsValid (apply_delta b delta now).0.inner
          × IsValid (apply_delta_with_gap_tolerance b delta max_gap now).0.inner
    unfolding apply_delta apply_delta_with_gap_tolerance
    apply_delta-IsValid b delta max_gap now nb na v = ground (
      arith,
      changed-IsValid b.inner delta now nb na v,
      Option-cases (mismatch b.inner.last_seq delta.prev_sequence),
      Option-cases (too_far max_gap b.inner.last_seq delta.prev_sequence),
    )
