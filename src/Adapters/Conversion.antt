-- ===== src/Adapters/Conversion.antt =====
-- What the conversions keep of what the exchange sends.
use arb_core.Common.{ℕ, ◌≡◌, refl, true, false, some, List, [], ◌∷◌, map, String, ok}
use arb_core.Orderbook.{Level}
use arb_core.Adapters.Binance.{
  Text, RawLevel, parse_level, parse_levels, to_update_from_event, to_update_from_depth,
}

module _ {D : Type 0} (t : Text D) (print : D → String)
    (inverse : (x : D) → t.parse_decimal (print x) ≡ ok x) where
  abbrev pub raw : Level D → RawLevel
  raw l = (print l.price, print l.size)

  parse_level-raw : (l : Level D) → parse_level t (raw l) ≡ ok l
  unfolding parse_level
  parse_level-raw l = rw (inverse l.price, inverse l.size) refl

  parse_levels-raw : (ls : List (Level D)) → parse_levels t (map raw ls) ≡ ok ls
  unfolding parse_levels
  parse_levels-raw [] = refl
  parse_levels-raw (l ∷ ls) = rw (parse_level-raw l, parse_levels-raw ls) refl

  -- If the parser reads each decimal back from its text, an event and a snapshot that carry the
  -- texts of some levels become updates with just these levels, in their order, with the last
  -- number of the event or snapshot, and only the snapshot is marked as one.
  pub to_update-raw :
      (symbol : String) (n : ℕ) (bids asks : List (Level D))
      → (to_update_from_event t (record {
        symbol = symbol;
        final_update_id = n;
        bids = map raw bids;
        asks = map raw asks;
      })
          ≡ ok (record {
            symbol = t.to_uppercase symbol;
            bids = bids;
            asks = asks;
            sequence = some n;
            is_snapshot = false;
          }))
        × (to_update_from_depth t symbol
              (record { last_update_id = n; bids = map raw bids; asks = map raw asks })
            ≡ ok (record {
              symbol = t.to_uppercase symbol;
              bids = bids;
              asks = asks;
              sequence = some n;
              is_snapshot = true;
            }))
  unfolding to_update_from_event to_update_from_depth
  to_update-raw symbol n bids asks = (
    rw (parse_levels-raw bids, parse_levels-raw asks) refl,
    rw (parse_levels-raw bids, parse_levels-raw asks) refl,
  )
