-- ===== src/Strategy/Engine/Tests.antt =====
-- The engine at concrete inputs, over whole numbers.
use arb_core.Common.{
  ℕ, inl, inr, arith, ◌≡◌, ◌≤◌, ◌⊎◌, refl, true, none, some, List, [], ◌∷◌, ◌++◌, String, map,
  length, u64_mod, ◌%◌, ◌+◌, if◌then◌else◌,
}
use arb_core.Common.Dict.{find, put, IsMap}
use arb_core.Decimal.Whole.{ℤ, pos, ◌*ℤ◌, whole}
use arb_core.Strategy.Config.{StrategyConfig, aggressive}
use arb_core.Strategy.Detector.{Opportunity, leg}
use arb_core.Strategy.Planner.{
  TradePlan, build_trade_plan, build_legs, build_leg, fit_qty, order_leg, plan_of,
}
use arb_core.Strategy.Engine.{StrategyEngine, ExecutionReport, InFlightPlan, filled, new_engine}
use arb_core.Strategy.Engine.Detector.{
  accepted, vet, register, submit, handle_opportunity, handle_opportunities, no_fills,
  pre_trade_checks, profit_check,
}
use arb_core.Strategy.Engine.Monitor.{handle_exec_report, scan_timeouts, to_cancel, cancel_plan}
use arb_core.Strategy.Engine.Inflight.{Reach, idle, inflight-le-max, handle_opportunity-Reach}
use arb_core.Strategy.Engine.Reports.{Reported, handle_exec_report_lem}
use arb_core.Strategy.Engine.Timeouts.{is_due, request, scan_timeouts_lem}
use arb_core.MarketData.Triangle.{TriView}
use arb_core.Strategy.Engine.Deadline.{run_tasks-TimesOut}
use arb_core.Strategy.Engine.Loops.{
  Turn, view, incoming, tick, views_closed, start, run_tasks, run_tasks-le-max,
}
use arb_core.Strategy.Engine.Keys.{Reach-IsMap}
use arb_core.Strategy.Engine.Sending.{
  handled, accepted-Sent, Sent, Dropped, handle_opportunities-handled, handle_opportunity-Sent,
}

abbrev test_config : StrategyConfig ℤ ℕ
test_config = record {
  triangle = "BTCUSDT" ∷ "ETHUSDT" ∷ "ETHBTC" ∷ [];
  base_currency = "USDT";
  fee_map = [];
  limits = record {
    max_notional = pos 0;
    min_profit_abs = pos 5;
    min_profit_pct = pos 0;
    depth_fill_factor = 6;
  };
  aggression = aggressive;
  max_concurrent_plans = 2;
  order_timeout_ms = 500;
  lot_rules = [];
}

abbrev test_opportunity : Opportunity ℤ
test_opportunity = record {
  start_currency = "USDT";
  estimated_profit = pos 1500;
  implied_price = pos 1;
  legs = leg "BTCUSDT" true (pos 100) (pos 100) ∷ [];
}

abbrev test_plan : TradePlan ℤ
test_plan = record {
  id = "p1";
  start_currency = "USDT";
  estimated_profit = pos 1500;
  estimated_profit_pct = pos 15;
  legs =
      (record {
        symbol = "BTCUSDT";
        buy_base = true;
        price_hint = pos 100;
        qty = pos 100;
        is_taker = true;
        leg_idx = 0;
      })
      ∷ [];
  created_ts = 7;
}

abbrev fresh : StrategyEngine ℤ ℕ
fresh = new_engine test_config

abbrev sent_once : StrategyEngine ℤ ℕ
sent_once = submit (register fresh test_plan 7) test_plan

vetted_plan : vet test_config 0 test_opportunity "p1" 7 ≡ accepted test_plan
unfolding vet build_trade_plan build_legs build_leg fit_qty order_leg plan_of pre_trade_checks
    profit_check ◌*ℤ◌ find
vetted_plan = refl

handled_once : handle_opportunity fresh test_opportunity "p1" 7 ≡ (sent_once, true)
unfolding handle_opportunity vet build_trade_plan build_legs build_leg fit_qty order_leg plan_of
    pre_trade_checks profit_check ◌*ℤ◌ find new_engine
handled_once = refl

sent_once-Reach : Reach fresh idle sent_once idle
sent_once-Reach = handle_opportunity-Reach fresh sent_once test_opportunity "p1" 7 handled_once

inflight-le-max_example : length sent_once.inflight ≤ 2
unfolding new_engine
inflight-le-max_example = inflight-le-max test_config sent_once-Reach

sent_once-IsMap : IsMap sent_once.inflight
sent_once-IsMap = Reach-IsMap test_config sent_once-Reach

handle_opportunity-Sent_example :
    Dropped fresh sent_once
    ⊎ ((plan : TradePlan ℤ) × Sent fresh test_opportunity "p1" 7 sent_once plan)
handle_opportunity-Sent_example =
    handle_opportunity-Sent fresh sent_once test_opportunity "p1" 7 handled_once

alive : (handle_opportunities fresh (test_opportunity ∷ []) 0 (λ i. ("p1", 7))).1 ≡ true
unfolding handle_opportunities handle_opportunity vet build_trade_plan build_legs build_leg fit_qty
    order_leg plan_of pre_trade_checks profit_check ◌*ℤ◌ find new_engine
alive = refl

handle_opportunities-handled_example :
    handled (handle_opportunities fresh (test_opportunity ∷ []) 0 (λ i. ("p1", 7))).0.metrics
      % u64_mod
    ≡ (handled fresh.metrics + 1) % u64_mod
handle_opportunities-handled_example =
    handle_opportunities-handled fresh (test_opportunity ∷ []) 0 (λ i. ("p1", 7)) alive

abbrev fill_report : ExecutionReport ℤ
fill_report = record {
  plan_id = "p1";
  leg_idx = 0;
  filled_qty = pos 100;
  remaining_qty = pos 0;
  status = filled;
  timestamp = 8;
}

abbrev test_entry : InFlightPlan ℤ
test_entry = record { plan = test_plan; filled = pos 0 ∷ []; submitted_at = 7; timeout_ms = 500 }

in_flight : find sent_once.inflight "p1" ≡ some test_entry
unfolding submit register new_engine put find no_fills
in_flight = refl

handle_exec_report_lem_example :
    Reported sent_once fill_report test_entry (handle_exec_report sent_once fill_report)
handle_exec_report_lem_example = handle_exec_report_lem sent_once fill_report test_entry in_flight

scan_timeouts_lem_example :
    ((id : String)
      → find (scan_timeouts sent_once 600).inflight id
        ≡ (if is_due 600 (find sent_once.inflight id) then none else find sent_once.inflight id))
    × (sent_once.cancel_open ≡ true
        → (scan_timeouts sent_once 600).cancel_sent
          ≡ sent_once.cancel_sent ++ map request (to_cancel sent_once.inflight 600))
scan_timeouts_lem_example = scan_timeouts_lem sent_once 600 sent_once-IsMap

one_due : (scan_timeouts sent_once 600).cancel_sent ≡ request "p1" ∷ []
unfolding scan_timeouts submit register new_engine put find no_fills cancel_plan
one_due = refl

abbrev turns : List (Turn ℤ)
turns = incoming fill_report ∷ tick 600 ∷ views_closed ∷ tick 700 ∷ []

-- ETH costs 2 BTC of 100 and sells for 230, so the forward cycle earns
abbrev earning : TriView ℤ
earning = record {
  sym_ab = "BTCUSDT";
  bids_ab = (pos 99, pos 5) ∷ [];
  asks_ab = (pos 100, pos 5) ∷ [];
  sym_bc = "ETHUSDT";
  bids_bc = (pos 230, pos 9) ∷ [];
  asks_bc = (pos 231, pos 9) ∷ [];
  sym_ac = "ETHBTC";
  bids_ac = (pos 1, pos 9) ∷ [];
  asks_ac = (pos 2, pos 9) ∷ [];
}

abbrev viewed : List (Turn ℤ)
viewed = view earning (λ i. ("p1", 7)) ∷ view earning (λ i. ("p2", 8)) ∷ turns

run_tasks-le-max_example :
    length (run_tasks (start (new_engine test_config)) viewed).engine.inflight ≤ 2
run_tasks-le-max_example = run_tasks-le-max test_config viewed

sent_once-Sent : Sent fresh test_opportunity "p1" 7 sent_once test_plan
unfolding new_engine
sent_once-Sent = accepted-Sent fresh test_opportunity "p1" 7 test_plan vetted_plan refl

abbrev late_turns : List (Turn ℤ)
late_turns = tick 100 ∷ views_closed ∷ tick 600 ∷ []

run_tasks-TimesOut_example :
    find (run_tasks (start sent_once) late_turns).engine.inflight "p1" ≡ none
unfolding start new_engine
run_tasks-TimesOut_example =
    run_tasks-TimesOut fresh sent_once test_opportunity "p1" 7 test_plan late_turns sent_once-Sent
      tt (inr (inl (omega arith)))
