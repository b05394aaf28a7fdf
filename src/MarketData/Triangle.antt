-- ===== src/MarketData/Triangle.antt =====
-- triview.rs: the top levels of three snapshots side by side.
use arb_core.Common.{ℕ, ◌+◌, List, [], ◌∷◌, String, leb, if◌then◌else◌}
use arb_core.Orderbook.{Level, OrderbookSnapshot}

-- sides are (price, size), best first
pub record TriView (D : Type 0) : Type 0 where
  pub sym_ab : String
  pub bids_ab : List (D × D)
  pub asks_ab : List (D × D)
  pub sym_bc : String
  pub bids_bc : List (D × D)
  pub asks_bc : List (D × D)
  pub sym_ac : String
  pub bids_ac : List (D × D)
  pub asks_ac : List (D × D)

module _ {D : Type 0} where
  unfoldable pub empty : String → String → String → TriView D
  empty a b c = record {
    sym_ab = a;
    bids_ab = [];
    asks_ab = [];
    sym_bc = b;
    bids_bc = [];
    asks_bc = [];
    sym_ac = c;
    bids_ac = [];
    asks_ac = [];
  }

  -- the loop of `take_top` from the index i on
  unfoldable pub take_top_from : ℕ → ℕ → List (Level D) → List (D × D)
  take_top_from i top_n [] = []
  take_top_from i top_n (lvl ∷ levels) =
      if leb top_n i then [] else (lvl.price, lvl.size) ∷ take_top_from (i + 1) top_n levels

  unfoldable pub take_top : List (Level D) → ℕ → List (D × D)
  unfolding take_top_from
  take_top levels top_n = take_top_from 0 top_n levels

  unfoldable pub build_triview_from_snapshots :
      String
      → OrderbookSnapshot D
      → String
      → OrderbookSnapshot D
      → String
      → OrderbookSnapshot D
      → ℕ
      → TriView D
  build_triview_from_snapshots sym_ab snap_ab sym_bc snap_bc sym_ac snap_ac top_n = record {
    sym_ab = sym_ab;
    bids_ab = take_top snap_ab.bids top_n;
    asks_ab = take_top snap_ab.asks top_n;
    sym_bc = sym_bc;
    bids_bc = take_top snap_bc.bids top_n;
    asks_bc = take_top snap_bc.asks top_n;
    sym_ac = sym_ac;
    bids_ac = take_top snap_ac.bids top_n;
    asks_ac = take_top snap_ac.asks top_n;
  }
