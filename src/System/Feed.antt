-- ===== src/System/Feed.antt =====
-- The views that the demo feeds the engine with (crates/demo/src/mock_execution_demo.rs): its getter of
-- snapshots, its triangle, and the task that reads the channel of the subscription.
use mathlib.Core.Option
use arb_core.Common.{
  ℕ, zero, suc, ◌+◌, ◌≡◌, refl, sym, subst, true, Option, none, some, List, [], ◌∷◌, ◌++◌, map,
  String, arith, take, All, Option-cases, inl, inr,
}
use arb_core.Orderbook.{OrderbookSnapshot, Level}
use arb_core.MarketData.Triangle.{TriView, build_triview_from_snapshots, take_top, take_top_from}
use arb_core.MarketData.Wiring.{OrderbookUpdate}
use arb_core.MarketData.Startup.{ExchangeAdapter}
use arb_core.MarketData.TopLevels.{pair}
use arb_core.MarketData.Subscription.{
  Triangle, Happening, tick, receive, view_of, subscribe, run_subscription,
}
use arb_core.MarketData.Delivery.{
  IsPartOf, nothing, leave_out, keep, offered, run_subscription-IsFaithful,
}

abbrev pub demo_triangle : Triangle
demo_triangle = record { sym_ab = "BTCUSDT"; sym_bc = "ETHUSDT"; sym_ac = "ETHBTC"; top_n = 10 }

-- A poll, with the number of its first call of the adapter, the time that the clock shows and how many
-- views are read while a full channel is waited on; or the forwarding of a view.
pub data FeedEvent : Type 0 where
  poll : (i elapsed taken : ℕ) → FeedEvent
  forward_view : FeedEvent

module _ {D : Type 0} (adapter : ExchangeAdapter D) where
  abbrev pub to_orderbook_snapshot : ℕ → OrderbookUpdate D → OrderbookSnapshot D
  to_orderbook_snapshot elapsed adapter_snapshot = record {
    symbol = adapter_snapshot.symbol;
    sequence = adapter_snapshot.sequence;
    ts = some elapsed;
    bids = adapter_snapshot.bids;
    asks = adapter_snapshot.asks;
  }

  unfoldable pub snapshot_getter : ℕ → String → ℕ → Option (OrderbookSnapshot D)
  snapshot_getter elapsed symbol i =
      Option.map (to_orderbook_snapshot elapsed) (adapter.get_snapshot symbol i)

  abbrev pub happening_of : FeedEvent → Happening D
  happening_of (poll i elapsed taken) =
      tick (snapshot_getter elapsed "BTCUSDT" i) (snapshot_getter elapsed "ETHUSDT" (i + 1))
        (snapshot_getter elapsed "ETHBTC" (i + 2)) taken
  happening_of forward_view = receive

  -- the views that the engine's channel was given
  unfoldable pub feed : List FeedEvent → List (TriView D)
  unfolding snapshot_getter run_subscription
  feed evs = (run_subscription demo_triangle subscribe (map happening_of evs)).received

  -- The two sides are the first ten levels, as it lists them, of a snapshot that the adapter gave.
  pub record IsGiven (symbol : String) (bids asks : List (D × D)) : Type 0 where
    pub call : ℕ
    pub snapshot : OrderbookUpdate D
    pub given : adapter.get_snapshot symbol call ≡ some snapshot
    pub first_bids : bids ≡ map pair (take 10 snapshot.bids)
    pub first_asks : asks ≡ map pair (take 10 snapshot.asks)

  pub record IsCurrent (view : TriView D) : Type 0 where
    pub symbols : (view.sym_ab ≡ "BTCUSDT") × (view.sym_bc ≡ "ETHUSDT") × (view.sym_ac ≡ "ETHBTC")
    pub ab : IsGiven "BTCUSDT" view.bids_ab view.asks_ab
    pub bc : IsGiven "ETHUSDT" view.bids_bc view.asks_bc
    pub ac : IsGiven "ETHBTC" view.bids_ac view.asks_ac

  take_top_from-take :
      (i n end : ℕ) (ls : List (Level D))
      → end ≡ i + n
      → take_top_from i end ls ≡ map pair (take n ls)
  unfolding take_top_from
  take_top_from-take i zero end [] h = refl
  take_top_from-take i (suc n) end [] h = refl
  take_top_from-take i zero end (l ∷ ls) h = ground arith
  take_top_from-take i (suc n) end (l ∷ ls) h =
      let ih = take_top_from-take (i + 1) n end ls (omega arith) in ground arith

  snapshot_getter-IsGiven :
      (elapsed i : ℕ) (symbol : String) (o : Option (OrderbookUpdate D)) (s : OrderbookSnapshot D)
      → adapter.get_snapshot symbol i ≡ o
      → Option.map (to_orderbook_snapshot elapsed) o ≡ some s
      → IsGiven symbol (take_top s.bids 10) (take_top s.asks 10)
  unfolding take_top
  snapshot_getter-IsGiven elapsed i symbol none s e h = cc
  snapshot_getter-IsGiven elapsed i symbol (some u) s e h =
      let same : s ≡ to_orderbook_snapshot elapsed u = cc in
      rw same (record {
        call = i;
        snapshot = u;
        given = e;
        first_bids = take_top_from-take 0 10 10 u.bids refl;
        first_asks = take_top_from-take 0 10 10 u.asks refl;
      })

  view_of-IsCurrent :
      (a b c : Option (OrderbookSnapshot D)) (view : TriView D)
      → ((s : OrderbookSnapshot D)
          → a ≡ some s
          → IsGiven "BTCUSDT" (take_top s.bids 10) (take_top s.asks 10))
      → ((s : OrderbookSnapshot D)
          → b ≡ some s
          → IsGiven "ETHUSDT" (take_top s.bids 10) (take_top s.asks 10))
      → ((s : OrderbookSnapshot D)
          → c ≡ some s
          → IsGiven "ETHBTC" (take_top s.bids 10) (take_top s.asks 10))
      → view_of demo_triangle a b c ≡ some view
      → IsCurrent view
  unfolding view_of build_triview_from_snapshots
  view_of-IsCurrent (some a) (some b) (some c) view ga gb gc h =
      let same : view ≡ build_triview_from_snapshots "BTCUSDT" a "ETHUSDT" b "ETHBTC" c 10 = cc in
      rw same
        (record { symbols = (refl, refl, refl); ab = ga a refl; bc = gb b refl; ac = gc c refl })
  view_of-IsCurrent none b c view ga gb gc h = cc
  view_of-IsCurrent (some a) none c view ga gb gc h = cc
  view_of-IsCurrent (some a) (some b) none view ga gb gc h = cc

  offered-IsCurrent :
      (evs : List FeedEvent) → All IsCurrent (offered demo_triangle true (map happening_of evs))
  unfolding snapshot_getter
  offered-IsCurrent [] = tt
  offered-IsCurrent (forward_view ∷ evs) = offered-IsCurrent evs
  offered-IsCurrent (poll i elapsed taken ∷ evs) =
      let ih = offered-IsCurrent evs in
      let a = snapshot_getter elapsed "BTCUSDT" i in
      let b = snapshot_getter elapsed "ETHUSDT" (i + 1) in
      let c = snapshot_getter elapsed "ETHBTC" (i + 2) in
      elim (Option-cases (view_of demo_triangle a b c)) [
        | inl missing ↦ rw missing ih
        | inr (view, made) ↦ rw made (
          view_of-IsCurrent a b c view (λ s. snapshot_getter-IsGiven elapsed i "BTCUSDT" _ s refl)
              (λ s. snapshot_getter-IsGiven elapsed (i + 1) "ETHUSDT" _ s refl)
              (λ s. snapshot_getter-IsGiven elapsed (i + 2) "ETHBTC" _ s refl) made,
          ih,
        )
      ]

  part-All :
      (P : TriView D → Type 0) (xs ys : List (TriView D)) → IsPartOf xs ys → All P ys → All P xs
  part-All P _ _ nothing h = tt
  part-All P _ _ (leave_out x p) (h, hs) = part-All P _ _ p hs
  part-All P _ _ (keep x p) (h, hs) = (h, part-All P _ _ p hs)

  All-first : (P : TriView D → Type 0) (xs ys : List (TriView D)) → All P (xs ++ ys) → All P xs
  All-first P [] ys h = tt
  All-first P (x ∷ xs) ys (h, hs) = (h, All-first P xs ys hs)

  -- Every view that the demo gives to its engine is of the triangle BTCUSDT, ETHUSDT and ETHBTC, and
  -- each of its sides shows the first ten levels, in the adapter's order, of a snapshot of that symbol
  -- that the adapter gave; both sides of a symbol are of the same snapshot.
  pub feed-IsCurrent : (evs : List FeedEvent) → All IsCurrent (feed evs)
  unfolding feed subscribe
  feed-IsCurrent evs =
      let hs = map happening_of evs in
      let s = run_subscription demo_triangle subscribe hs in
      let v = run_subscription-IsFaithful demo_triangle hs in
      let all = part-All IsCurrent v.news _ v.of_offered (offered-IsCurrent evs) in
      All-first IsCurrent s.received s.queue (subst (All IsCurrent) (sym v.in_order) all)
