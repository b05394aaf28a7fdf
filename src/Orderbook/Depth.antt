-- ===== src/Orderbook/Depth.antt =====
-- What a book quotes after a snapshot or a delta, price by price.
use arb_core.Common.{ℕ, ◌∙◌, ◌≡◌, refl, Option, none, some, List, [], ◌∷◌, arith, if◌then◌else◌}
use arb_core.Decimal.{Decimal, IsOrdered, nil, is_lt, is_eq}
use arb_core.Orderbook.Ladder.{
  PriceMap, IsAscending, get, insert, remove, get-insert, get-remove, insert-IsAscending,
  remove-IsAscending,
}
use arb_core.Orderbook.{
  OrderBook, OrderbookSnapshot, apply_snapshot, Level, load_levels, change_levels,
}

module _ {D : Type 0} ⦃d : Decimal D⦄ where
  -- The size in the last of the levels at this price.
  unfoldable pub last_size : D → List (Level D) → Option D
  last_size p [] = none
  last_size p (l ∷ ls) = elim (last_size p ls) [
    | some s ↦ some s
    | none ↦ if is_eq l.price p then some l.size else none
  ]

  -- The same among the levels of positive size.
  unfoldable pub last_positive_size : D → List (Level D) → Option D
  last_positive_size p [] = none
  last_positive_size p (l ∷ ls) = elim (last_positive_size p ls) [
    | some s ↦ some s
    | none ↦ if is_lt nil l.size then (if is_eq l.price p then some l.size else none) else none
  ]

  abbrev pub or_old : Option D → Option D → Option D
  or_old (some s) old = some s
  or_old none old = old

  or_old-none : (o : Option D) → or_old o none ≡ o
  or_old-none (some s) = refl
  or_old-none none = refl

  -- a size of zero takes the price off the book
  abbrev pub or_removed : Option D → Option D → Option D
  or_removed (some s) old = if is_eq s nil then none else some s
  or_removed none old = old

  module _ ⦃o : IsOrdered D⦄ where
    -- A price reads the last level of positive size at it, and as before if there is none.
    get-load_levels :
        (p : D) (ls : List (Level D)) (m : PriceMap D)
        → get p (load_levels ls m) ≡ or_old (last_positive_size p ls) (get p m)
    unfolding load_levels last_positive_size
    get-load_levels p [] m = refl
    get-load_levels p (l ∷ ls) m = ground (
      arith,
      get-load_levels p ls m,
      get-load_levels p ls (insert l.price l.size m),
      get-insert l.price p l.size m,
    )

    -- After a snapshot, whatever the book was before, each price of each side reads the size of the
    -- snapshot's last level of positive size at this price, and a price that has none is not there.
    pub get-apply_snapshot :
        (p : D) (b : OrderBook D) (snap : OrderbookSnapshot D) (now : ℕ)
        → let b' = (apply_snapshot b snap now).0 in
          (get p b'.inner.bids ≡ last_positive_size p snap.bids)
          × (get p b'.inner.asks ≡ last_positive_size p snap.asks)
    unfolding apply_snapshot get
    get-apply_snapshot p b snap now = (
      get-load_levels p snap.bids [] ∙ or_old-none (last_positive_size p snap.bids),
      get-load_levels p snap.asks [] ∙ or_old-none (last_positive_size p snap.asks),
    )

    -- On an ascending side that a delta changes, each price reads the size of the delta's last
    -- change at this price, is gone if that size is zero, and reads as before if the delta has no
    -- change at it.
    pub get-change_levels :
        (p : D) (ls : List (Level D)) (m : PriceMap D)
        → IsAscending m
        → get p (change_levels ls m) ≡ or_removed (last_size p ls) (get p m)
    unfolding change_levels last_size
    get-change_levels p [] m a = refl
    get-change_levels p (l ∷ ls) m a = ground (
      arith,
      get-change_levels p ls (remove l.price m) (remove-IsAscending l.price m a),
      get-change_levels p ls (insert l.price l.size m) (insert-IsAscending l.price l.size m a),
      get-insert l.price p l.size m,
      get-remove l.price p m a,
    )
