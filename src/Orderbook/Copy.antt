-- ===== src/Orderbook/Copy.antt =====
-- A snapshot of a book, applied, gives the book back.
use mathlib.Core.List.{reverse-cons, append_assoc, append-nil, map-append}
use arb_core.Common.{
  ℕ, ◌≡◌, refl, sym, false, ok, All-append, ◌∙◌, List, [], ◌∷◌, ◌++◌, map, reverse, arith, All,
}
use arb_core.Decimal.{Decimal, IsOrdered, ◌≺◌, nil}
use arb_core.Orderbook.Ladder.{PriceMap, Above, insert}
use arb_core.Orderbook.{Level, OrderBook, level, load_levels, apply_snapshot, snapshot_copy}
use arb_core.Orderbook.Validity.{IsValid, IsLadder}

module _ {D : Type 0} ⦃d : Decimal D⦄ ⦃o : IsOrdered D⦄ where
  insert_front : (p s : D) (m : PriceMap D) → Above p m → insert p s m ≡ (p, s) ∷ m
  unfolding insert
  insert_front p s [] a = refl
  insert_front p s ((q, t) ∷ m) a = ground arith

  insert_back : (p s : D) (m : PriceMap D) → All (λ e. e.0 ≺ p) m → insert p s m ≡ m ++ (p, s) ∷ []
  unfolding insert
  insert_back p s [] a = refl
  insert_back p s ((q, t) ∷ m) a = ground (arith, o.gt_of_lt q p, insert_back p s m a.1)

  load_levels-append :
      (ks ls : List (Level D)) (m : PriceMap D)
      → load_levels (ks ++ ls) m ≡ load_levels ls (load_levels ks m)
  unfolding load_levels
  load_levels-append [] ls m = refl
  load_levels-append (k ∷ ks) ls m = load_levels-append ks ls _

  -- The prices of the first list lie below those of the second.
  abbrev Before : PriceMap D → PriceMap D → Type 0
  Before m [] = Unit
  Before m ((p, s) ∷ ls) = All (λ e. e.0 ≺ p) m × Before m ls

  Before-append :
      (m ls : PriceMap D) (p s : D) → Before m ls → Above p ls → Before (m ++ (p, s) ∷ []) ls
  Before-append m [] p s b a = tt
  Before-append m ((q, t) ∷ ls) p s b a =
      (All-append (λ e. e.0 ≺ q) m ((p, s) ∷ []) b.0 (a.0, tt), Before-append m ls p s b.1 a.1)

  Before-nil : (ls : PriceMap D) → Before [] ls
  Before-nil [] = tt
  Before-nil ((p, s) ∷ ls) = (tt, Before-nil ls)

  load_positive :
      (p s : D) (ls : List (Level D)) (m : PriceMap D)
      → nil ≺ s
      → load_levels (level (p, s) ∷ ls) m ≡ load_levels ls (insert p s m)
  unfolding load_levels
  load_positive p s ls m h = ground arith

  load_ascending :
      (ls m : PriceMap D) → IsLadder ls → Before m ls → load_levels (map level ls) m ≡ m ++ ls
  unfolding load_levels
  load_ascending [] m v b = sym (append-nil m)
  load_ascending ((p, s) ∷ ls) m v b =
      rw (load_positive p s (map level ls) m v.1.0, insert_back p s m b.0)
        (load_ascending ls (m ++ (p, s) ∷ []) (v.0.1, v.1.1) (Before-append m ls p s b.1 v.0.0)
          ∙ append_assoc m ((p, s) ∷ []) ls)

  load_descending : (m : PriceMap D) → IsLadder m → load_levels (map level (reverse m)) [] ≡ m
  unfolding load_levels
  load_descending [] v = refl
  load_descending ((p, s) ∷ m) v =
      rw
        (
          reverse-cons (p, s) m,
          map-append level (reverse m) ((p, s) ∷ []),
          load_levels-append (map level (reverse m)) (level (p, s) ∷ []) [],
          load_descending m (v.0.1, v.1.1),
          load_positive p s [] m v.1.0,
        )
        (insert_front p s m v.0.0)

  -- The snapshot that a reader copies from a valid book, applied to any book of any state, gives
  -- that book the sides and the sequence of the first one, and is never refused.
  pub apply_snapshot-snapshot_copy :
      (b other : OrderBook D) (then_ now : ℕ)
      → IsValid b.inner
      → let (b', r) = apply_snapshot other (snapshot_copy b then_) now in
        (b'.inner.bids ≡ b.inner.bids)
        × (b'.inner.asks ≡ b.inner.asks)
        × (b'.inner.last_seq ≡ b.inner.last_seq)
        × (b'.resync_required ≡ false)
        × (r ≡ ok tt)
  unfolding apply_snapshot snapshot_copy
  apply_snapshot-snapshot_copy b other then_ now v = (
    load_descending b.inner.bids v.bids_valid,
    load_ascending b.inner.asks [] v.asks_valid (Before-nil b.inner.asks),
    refl,
    refl,
    refl,
  )
