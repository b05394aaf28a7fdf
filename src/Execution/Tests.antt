-- ===== src/Execution/Tests.antt =====
-- The mock execution at concrete inputs, over whole numbers.
use arb_core.Common.{ℕ, ◌≡◌, ◌≤◌, refl, true, false, none, List, [], ◌∷◌, ◌==◌, arith}
use arb_core.Common.Dict.{find, put, delete}
use arb_core.Decimal.Whole.{ℤ, pos, ◌*ℤ◌, whole, whole-IsAdditive, whole-AddsToNil}
use arb_core.Strategy.Config.{StrategyConfig, aggressive}
use arb_core.Strategy.Detector.{Opportunity, leg}
use arb_core.Strategy.Planner.{
  TradePlan, OrderLeg, build_trade_plan, build_legs, build_leg, fit_qty, order_leg, plan_of,
}
use arb_core.Strategy.Engine.{StrategyEngine, ExecutionReport, filled, CancelRequest, new_engine}
use arb_core.Strategy.Engine.Detector.{
  accepted, pre_trade_checks, profit_check, register, submit, vet,
}
use arb_core.Strategy.Engine.Sending.{Sent, accepted-Sent}
use arb_core.Strategy.Engine.Loops.{Turn, incoming, tick, views_closed, start, run_tasks}
use arb_core.Execution.Mock.{
  Signals, woken, run_leg, run_legs, report_of, run_plan, MockEvent, start_plan, on_cancel,
  finish_plan, start_of, cancel_of, finish_of, run_mock,
}
use arb_core.Execution.Fills.{AreReports, run_plan-AreReports}
use arb_core.Execution.Signalled.{times, run_mock-once}
use arb_core.Execution.Handling.{handle_reports, IsEnded}
use arb_core.Execution.Life.{handle_reports-IsEnded}
use arb_core.Execution.Interleaved.{reports_for, run_tasks-completes}

abbrev two_legs : List (OrderLeg ℤ)
two_legs =
    (record {
      symbol = "BTCUSDT";
      buy_base = true;
      price_hint = pos 100;
      qty = pos 6;
      is_taker = true;
      leg_idx = 0;
    })
    ∷ (record {
      symbol = "ETHBTC";
      buy_base = false;
      price_hint = pos 3;
      qty = pos 4;
      is_taker = true;
      leg_idx = 1;
    })
    ∷ []

abbrev running : TradePlan ℤ
running = record {
  id = "p1";
  start_currency = "USDT";
  estimated_profit = pos 1500;
  estimated_profit_pct = pos 15;
  legs = two_legs;
  created_ts = 7;
}

-- a cancel request that comes before the second leg
abbrev second_heard : Signals
second_heard = record { cancel_heard = λ i. i == 1; race = λ i. woken }

run_plan-AreReports_example :
    let (rs, done) = run_plan second_heard (λ i. i) running in AreReports running two_legs rs done
run_plan-AreReports_example = run_plan-AreReports second_heard (λ i. i) running

abbrev request : CancelRequest
request = record { plan_id = "p1"; leg_idx = none }

abbrev mock_events : List MockEvent
mock_events =
    start_of "p1" ∷ start_of "p1" ∷ cancel_of request ∷ cancel_of request ∷ finish_of "p1" ∷ []

run_mock-once_example :
    times 1 (run_mock 0 (record { cancel_map = []; signalled = [] }) mock_events).signalled ≤ 1
run_mock-once_example = run_mock-once mock_events 1

last_signalled :
    (run_mock 0 (record { cancel_map = []; signalled = [] }) mock_events).signalled ≡ 1 ∷ []
unfolding run_mock start_plan on_cancel finish_plan put find delete
last_signalled = refl

abbrev mock_config : StrategyConfig ℤ ℕ
mock_config = record {
  triangle = "BTCUSDT" ∷ "ETHUSDT" ∷ "ETHBTC" ∷ [];
  base_currency = "USDT";
  fee_map = [];
  limits = record {
    max_notional = pos 0;
    min_profit_abs = pos 5;
    min_profit_pct = pos 0;
    depth_fill_factor = 6;
  };
  aggression = aggressive;
  max_concurrent_plans = 2;
  order_timeout_ms = 500;
  lot_rules = [];
}

abbrev chance : Opportunity ℤ
chance = record {
  start_currency = "USDT";
  estimated_profit = pos 1500;
  implied_price = pos 1;
  legs = leg "BTCUSDT" true (pos 100) (pos 100) ∷ [];
}

abbrev before : StrategyEngine ℤ ℕ
before = new_engine mock_config

abbrev order_of_chance : OrderLeg ℤ
order_of_chance = record {
  symbol = "BTCUSDT";
  buy_base = true;
  price_hint = pos 100;
  qty = pos 100;
  is_taker = true;
  leg_idx = 0;
}

abbrev chance_plan : TradePlan ℤ
chance_plan = record {
  id = "p1";
  start_currency = "USDT";
  estimated_profit = pos 1500;
  estimated_profit_pct = pos 15;
  legs = order_of_chance ∷ [];
  created_ts = 7;
}

abbrev after : StrategyEngine ℤ ℕ
after = submit (register before chance_plan 7) chance_plan

vetted : vet mock_config 0 chance "p1" 7 ≡ accepted chance_plan
unfolding vet build_trade_plan build_legs build_leg fit_qty order_leg plan_of pre_trade_checks
    profit_check ◌*ℤ◌ find
vetted = refl

after-Sent : Sent before chance "p1" 7 after chance_plan
unfolding new_engine
after-Sent = accepted-Sent before chance "p1" 7 chance_plan vetted refl

comes_to_end : (run_plan second_heard (λ i. i) chance_plan).1 ≡ true
unfolding run_plan run_legs run_leg
comes_to_end = refl

handle_reports-IsEnded_example :
    IsEnded after "p1" (handle_reports after (run_plan second_heard (λ i. i) chance_plan).0)
handle_reports-IsEnded_example =
    handle_reports-IsEnded before after chance "p1" 7 chance_plan second_heard (λ i. i)
      whole-AddsToNil (omega arith) (omega arith) after-Sent comes_to_end

abbrev filled_report : ExecutionReport ℤ
filled_report = report_of chance_plan (order_of_chance) (pos 100) (pos 0) filled 0

abbrev turns : List (Turn ℤ)
turns =
    tick 20
    ∷ incoming (record filled_report { plan_id = "p0" })
    ∷ views_closed
    ∷ incoming filled_report
    ∷ []

reported : reports_for "p1" turns ≡ (run_plan second_heard (λ i. i) chance_plan).0
unfolding run_plan run_legs run_leg
reported = refl

run_tasks-completes_example : find (run_tasks (start after) turns).engine.inflight "p1" ≡ none
unfolding start
run_tasks-completes_example =
    run_tasks-completes before after chance "p1" 7 chance_plan second_heard (λ i. i) turns
      whole-AddsToNil (omega arith) (omega arith) after-Sent comes_to_end reported tt
