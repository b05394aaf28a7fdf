-- ===== src/System/Tests.antt =====
-- The connected system at concrete inputs, over whole numbers.
use arb_core.Common.{
  ℕ, ◌≡◌, ◌≤◌, ◌↔◌, refl, ok, leb, length, inl, true, false, some, none, List, [], ◌∷◌, ◌++◌,
  String, All,
}
use arb_core.Common.Dict.{find, put, delete}
use arb_core.Decimal.Whole.{dec_nonneg, whole-IsOrdered, ℤ, pos, ◌*ℤ◌, whole, whole-AddsToNil}
use arb_core.MarketData.Triangle.{TriView}
use arb_core.Strategy.Config.{validate, Float, StrategyConfig, aggressive}
use arb_core.Strategy.Detector.{detect_triangular_opportunities, forward_cycle, backward_cycle}
use arb_core.Strategy.Planner.{build_legs, build_leg}
use arb_core.Strategy.Engine.Detector.{handle_opportunity}
use arb_core.Strategy.Engine.Monitor.{cancel_plan}
use arb_core.Execution.Mock.{start_plan, finish_plan}
use arb_core.System.Fires.{minted_by, Spares}
use arb_core.System.Runs.{AreFresh}
use arb_core.System.Rest.{IsAtRest, IsIdle, rest_iff, rest-no_inflight}
use arb_core.System.Load.{load}
use arb_core.System.Demo.{strategy_config, demo_lem}
use arb_core.MarketData.Subscription.{subscribe}
use arb_core.System.Feed.{FeedEvent, poll, forward_view, feed, IsCurrent, feed-IsCurrent}
use arb_core.MarketData.Startup.{ExchangeAdapter}
use arb_core.System.Finite.{GoesOn, run_system-load}
use arb_core.System.State.{
  System, Event, view_comes, tick, take_view, forward_plan, start_worker, forward_report,
  handle_report, forward_cancel, take_cancel, next_chance, work, finish, new_system,
}
use arb_core.System.Actions.{run_system}

instance abbrev tenths : Float ℕ
tenths = record { zero_f = 0; one_f = 10; six_tenths = 6; le_f = leb }

abbrev connected : StrategyConfig ℤ ℕ
connected = record {
  triangle = "BTCUSDT" ∷ "ETHUSDT" ∷ "ETHBTC" ∷ [];
  base_currency = "USDT";
  fee_map = [];
  limits = record {
    max_notional = pos 0;
    min_profit_abs = pos 5;
    min_profit_pct = pos 0;
    depth_fill_factor = 6;
  };
  aggression = aggressive;
  max_concurrent_plans = 2;
  order_timeout_ms = 500;
  lot_rules = [];
}

-- ETH costs 2 BTC of 100 and sells for 230, so the forward cycle earns
abbrev seen : TriView ℤ
seen = record {
  sym_ab = "BTCUSDT";
  bids_ab = (pos 99, pos 5) ∷ [];
  asks_ab = (pos 100, pos 5) ∷ [];
  sym_bc = "ETHUSDT";
  bids_bc = (pos 230, pos 9) ∷ [];
  asks_bc = (pos 231, pos 9) ∷ [];
  sym_ac = "ETHBTC";
  bids_ac = (pos 1, pos 9) ∷ [];
  asks_ac = (pos 2, pos 9) ∷ [];
}

-- a view comes, and its opportunity becomes a plan whose worker has done one leg
abbrev opened : List (Event ℤ)
opened =
    view_comes seen
    ∷ take_view
    ∷ next_chance "p1" 7
    ∷ forward_plan
    ∷ start_worker
    ∷ work 0 8 false
    ∷ []

-- the plan times out between two reports; the late cancel request reaches nobody
abbrev closed : List (Event ℤ)
closed =
    work 0 9 false
    ∷ forward_report
    ∷ handle_report
    ∷ tick 600
    ∷ work 0 10 false
    ∷ forward_cancel
    ∷ finish 0
    ∷ take_cancel
    ∷ forward_report
    ∷ forward_report
    ∷ handle_report
    ∷ handle_report
    ∷ []

abbrev IsPlain : Event ℤ → Type 0
IsPlain ev = minted_by ev ≡ none

plain-Spares : (id : String) (evs : List (Event ℤ)) → All IsPlain evs → All (Spares id) evs
plain-Spares id [] p = tt
plain-Spares id (ev ∷ evs) (p, ps) = (λ h. cc, plain-Spares id evs ps)

plain-AreFresh : (evs : List (Event ℤ)) → All IsPlain evs → AreFresh evs
plain-AreFresh [] p = tt
plain-AreFresh (ev ∷ evs) (p, ps) = (λ id h. plain-Spares id evs ps, plain-AreFresh evs ps)

abbrev after_mint : List (Event ℤ)
after_mint = forward_plan ∷ start_worker ∷ work 0 8 false ∷ closed

after_mint-IsPlain : All IsPlain after_mint
after_mint-IsPlain = (
  refl,
  (
    refl,
    (
      refl,
      (
        refl,
        (refl, (refl, (refl, (refl, (refl, (refl, (refl, (refl, (refl, (refl, (refl, tt))))))))))),
      ),
    ),
  ),
)

events-AreFresh : AreFresh (opened ++ closed)
events-AreFresh = (
  λ id h. cc,
  (
    λ id h. cc,
    (
      λ id h. plain-Spares id after_mint after_mint-IsPlain,
      plain-AreFresh after_mint after_mint-IsPlain,
    ),
  ),
)

abbrev drained : System ℤ ℕ
drained = run_system (new_system connected) (opened ++ closed)

drained-IsIdle : IsIdle drained
unfolding run_system new_system detect_triangular_opportunities forward_cycle backward_cycle ◌*ℤ◌
    find put delete handle_opportunity build_legs build_leg cancel_plan start_plan finish_plan
drained-IsIdle = record {
  no_chance = refl;
  none_sent = refl;
  no_plan = refl;
  no_job = refl;
  no_response = refl;
  no_report = refl;
  none_cancelled = refl;
  no_cancel = refl;
  no_view = inl refl;
}

rest_iff_example : IsAtRest drained ↔ IsIdle drained
rest_iff_example = rest_iff drained

rest-no_inflight_example : drained.engine.inflight ≡ []
rest-no_inflight_example =
    rest-no_inflight connected (opened ++ closed) whole-AddsToNil refl events-AreFresh
      (rest_iff_example.1 drained-IsIdle)

goes_on : GoesOn (run_system (new_system connected) opened) (work 0 9 false ∷ forward_report ∷ [])
unfolding run_system new_system detect_triangular_opportunities forward_cycle backward_cycle ◌*ℤ◌
    find put delete handle_opportunity build_legs build_leg cancel_plan start_plan finish_plan
goes_on = (tt, (_, refl, (tt, (_, refl, tt))))

run_system-load_example : 2 ≤ load (run_system (new_system connected) opened)
run_system-load_example =
    run_system-load connected opened (work 0 9 false ∷ forward_report ∷ []) goes_on

abbrev eight : ℕ
eight = 8

demo_lem_example :
    let e = (run_system (new_system (strategy_config eight)) (opened ++ closed)).engine in
    (validate e.cfg ≡ ok tt) × (length e.inflight ≤ 3)
demo_lem_example = demo_lem eight (opened ++ closed) dec_nonneg refl refl

-- an adapter whose snapshots have one level on each side
abbrev quoting : ExchangeAdapter ℤ
quoting = record {
  get_snapshot = λ symbol i. some (record {
    symbol = symbol;
    bids = record { price = pos 99; size = pos 5 } ∷ [];
    asks = record { price = pos 100; size = pos i } ∷ [];
    sequence = none;
    is_snapshot = true;
  });
  connect_ws = λ symbols. none;
}

abbrev polls : List FeedEvent
polls = poll 0 0 0 ∷ forward_view ∷ poll 3 0 0 ∷ []

feed-IsCurrent_example : All (IsCurrent quoting) (feed quoting polls)
feed-IsCurrent_example = feed-IsCurrent quoting polls

one_fed : length (feed quoting polls) ≡ 1
unfolding feed subscribe
one_fed = refl
