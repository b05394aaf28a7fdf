-- ===== src/System/State.antt =====
-- The engine and the mock of the execution with the channels that `main` puts between them. What
-- happens is a sequence of events: a view comes in, the monitor's ticker fires, or one of the tasks
-- does its next piece of work, in any order. The engine's lists of what it sent are here the channels
-- themselves: what is read is taken out. A sender on a full channel waits: its event does not fire.
use arb_core.Common.{ℕ, Bool, true, List, [], String}
use arb_core.MarketData.Triangle.{TriView}
use arb_core.Strategy.Config.{StrategyConfig}
use arb_core.Strategy.Detector.{Opportunity}
use arb_core.Strategy.Planner.{TradePlan, OrderLeg}
use arb_core.Strategy.Engine.{
  StrategyEngine, ExecutionReport, CancelRequest, new_engine, with_storage,
}
use arb_core.Execution.Mock.{MockExecution}

-- the capacity of the bounded channels
abbrev pub bound : ℕ
bound = 128

-- The one-shot channel of a worker: no signal yet, one to be read, or one that was read. That its
-- sender is dropped unused, when a plan with the same identity is started, is left out: identities
-- are fresh.
pub data Signal : Type 0 where
  silent pending taken : Signal

-- a worker of the execution: its number, its plan, and the legs that it has not come to
pub record Job (D : Type 0) : Type 0 where
  pub worker : ℕ
  pub plan : TradePlan D
  pub place : ℕ
  pub rest : List (OrderLeg D)
  pub signal : Signal

-- The channels in the order of the flow. `chances` are the opportunities of the view at hand, and
-- `detecting` tells whether the detector's task is alive.
pub record System (D F : Type 0) : Type 0 where
  pub views : List (TriView D)
  pub detecting : Bool
  pub chances : List (Opportunity D)
  pub engine : StrategyEngine D F
  pub plans : List (TradePlan D)
  pub next_worker : ℕ
  pub jobs : List (Job D)
  pub mock : MockExecution
  pub responses : List (ExecutionReport D)
  pub reports : List (ExecutionReport D)
  pub cancels : List CancelRequest

-- `work` and `finish` name a worker by its place among those that run; a leg may be `late` for a signal
-- that waits.
pub data Event (D : Type 0) : Type 0 where
  view_comes : TriView D → Event D
  tick : ℕ → Event D
  take_view forward_plan start_worker forward_report handle_report forward_cancel take_cancel :
      Event D
  next_chance : String → ℕ → Event D
  work : ℕ → ℕ → Bool → Event D
  finish : ℕ → Event D

module _ {D F : Type 0} where
  unfoldable pub new_system : StrategyConfig D F → System D F
  unfolding new_engine with_storage
  new_system cfg = record {
    views = [];
    detecting = true;
    chances = [];
    engine = with_storage (new_engine cfg);
    plans = [];
    next_worker = 0;
    jobs = [];
    mock = record { cancel_map = []; signalled = [] };
    responses = [];
    reports = [];
    cancels = [];
  }
