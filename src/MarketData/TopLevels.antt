-- ===== src/MarketData/TopLevels.antt =====
-- The view of three books.
use arb_core.Common.{ℕ, zero, suc, ◌+◌, ◌≡◌, refl, [], ◌∷◌, map, String, arith, take, reverse}
use arb_core.Orderbook.Ladder.{PriceMap}
use arb_core.Orderbook.{Level, OrderBook, bid, ask, top_n, snapshot_copy, level}
use arb_core.MarketData.Triangle.{take_top_from, take_top, build_triview_from_snapshots}

module _ {D : Type 0} where
  abbrev pub pair : Level D → D × D
  pair l = (l.price, l.size)

  take_top_from-level :
      (i n end : ℕ) (m : PriceMap D)
      → end ≡ i + n
      → take_top_from i end (map level m) ≡ map pair (map level (take n m))
  unfolding take_top_from
  take_top_from-level i zero end [] h = refl
  take_top_from-level i (suc n) end [] h = refl
  take_top_from-level i zero end (e ∷ m) h = ground arith
  take_top_from-level i (suc n) end (e ∷ m) h =
      let ih = take_top_from-level (i + 1) n end m (omega arith) in ground arith

  take_top-level :
      (n : ℕ) (m : PriceMap D) → take_top (map level m) n ≡ map pair (map level (take n m))
  unfolding take_top
  take_top-level n m = take_top_from-level 0 n n m (omega arith)

  -- A view of the copies of three books shows of each side what `top_n` of the book returns.
  pub build_triview-top_n :
      (ab bc ac : OrderBook D) (sym_ab sym_bc sym_ac : String) (n now : ℕ)
      → let view =
          build_triview_from_snapshots sym_ab
            (snapshot_copy ab now)
            sym_bc
            (snapshot_copy bc now)
            sym_ac
            (snapshot_copy ac now)
            n in
        (view.bids_ab ≡ map pair (top_n ab bid n))
        × (view.asks_ab ≡ map pair (top_n ab ask n))
        × (view.bids_bc ≡ map pair (top_n bc bid n))
        × (view.asks_bc ≡ map pair (top_n bc ask n))
        × (view.bids_ac ≡ map pair (top_n ac bid n))
        × (view.asks_ac ≡ map pair (top_n ac ask n))
  unfolding build_triview_from_snapshots top_n snapshot_copy take_top
  build_triview-top_n ab bc ac sym_ab sym_bc sym_ac n now = (
    take_top-level n (reverse ab.inner.bids),
    take_top-level n ab.inner.asks,
    take_top-level n (reverse bc.inner.bids),
    take_top-level n bc.inner.asks,
    take_top-level n (reverse ac.inner.bids),
    take_top-level n ac.inner.asks,
  )
