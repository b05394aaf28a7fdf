-- ===== src/Strategy/Engine.antt =====
-- engine.rs: the state that the two tasks of the engine share, and what each task does to it. A
-- channel is the list of what was sent and a flag, true until the receiver is dropped. The fills are
-- what the engine hands to the storage. `now` is a reading of the clock in milliseconds.
pub mod Detector
pub mod Monitor
pub mod Inflight
pub mod Reports
pub mod Timeouts
pub mod Keys
pub mod Sending
pub mod Loops
pub mod Others
pub mod Deadline
mod Tests
use arb_core.Common.{
  ℕ, Bool, true, false, Option, none, some, List, [], ◌∷◌, ◌++◌, String, if◌then◌else◌, bump,
  is_some,
}
use arb_core.Common.Dict.{Dict, find, put, delete}
use arb_core.Decimal.{Decimal, nil}
use arb_core.Strategy.Config.{StrategyConfig}
use arb_core.Strategy.Planner.{TradePlan, OrderLeg}

pub data ExecStatus : Type 0 where
  new partially_filled filled cancelled rejected : ExecStatus
  error : String → ExecStatus

pub record ExecutionReport (D : Type 0) : Type 0 where
  pub plan_id : String
  pub leg_idx : ℕ
  pub filled_qty : D
  pub remaining_qty : D
  pub status : ExecStatus
  pub timestamp : ℕ

-- `leg_idx` none: all legs of the plan
pub record CancelRequest : Type 0 where
  pub plan_id : String
  pub leg_idx : Option ℕ

pub record InFlightPlan (D : Type 0) : Type 0 where
  pub plan : TradePlan D
  pub filled : List D
  pub submitted_at : ℕ
  pub timeout_ms : ℕ

pub record StrategyMetrics : Type 0 where
  pub opportunities_seen : ℕ
  pub plans_created : ℕ
  pub plans_submitted : ℕ
  pub plans_executed : ℕ
  pub plans_cancelled : ℕ
  pub plans_rejected : ℕ

-- the arguments of `insert_fill`
pub record Fill (D : Type 0) : Type 0 where
  pub plan_id : String
  pub leg_idx : ℕ
  pub symbol : String
  pub side : String
  pub qty : D
  pub price : D
  pub status : String
  pub exchange : String

pub record StrategyEngine (D F : Type 0) : Type 0 where
  pub cfg : StrategyConfig D F
  pub exec_open : Bool
  pub exec_sent : List (TradePlan D)
  pub cancel_open : Bool
  pub cancel_sent : List CancelRequest
  pub inflight : Dict (InFlightPlan D)
  pub metrics : StrategyMetrics
  pub has_storage : Bool
  pub fills : List (Fill D)

abbrev no_metrics : StrategyMetrics
no_metrics = record {
  opportunities_seen = 0;
  plans_created = 0;
  plans_submitted = 0;
  plans_executed = 0;
  plans_cancelled = 0;
  plans_rejected = 0;
}

module _ {D F : Type 0} where
  unfoldable pub new_engine : StrategyConfig D F → StrategyEngine D F
  new_engine cfg = record {
    cfg = cfg;
    exec_open = true;
    exec_sent = [];
    cancel_open = true;
    cancel_sent = [];
    inflight = [];
    metrics = no_metrics;
    has_storage = false;
    fills = [];
  }

  unfoldable pub with_storage : StrategyEngine D F → StrategyEngine D F
  with_storage e = record e { has_storage = true }

  -- counters, each by one
  abbrev pub count_seen : StrategyEngine D F → StrategyEngine D F
  count_seen e = record e {
    metrics = record (e.metrics) { opportunities_seen = bump e.metrics.opportunities_seen };
  }

  abbrev pub count_submitted : StrategyEngine D F → StrategyEngine D F
  count_submitted e = record e {
    metrics = record (e.metrics) { plans_submitted = bump e.metrics.plans_submitted };
  }

  abbrev pub count_executed : StrategyEngine D F → StrategyEngine D F
  count_executed e = record e {
    metrics = record (e.metrics) { plans_executed = bump e.metrics.plans_executed };
  }

  abbrev pub count_cancelled : StrategyEngine D F → StrategyEngine D F
  count_cancelled e = record e {
    metrics = record (e.metrics) { plans_cancelled = bump e.metrics.plans_cancelled };
  }

  abbrev pub count_rejected : StrategyEngine D F → StrategyEngine D F
  count_rejected e = record e {
    metrics = record (e.metrics) { plans_rejected = bump e.metrics.plans_rejected };
  }

  -- `let _ = self.exec_cancel_tx.send(…)` for all legs of a plan
  unfoldable pub send_cancel : StrategyEngine D F → String → StrategyEngine D F
  send_cancel e plan_id =
      if e.cancel_open
      then record e {
        cancel_sent = e.cancel_sent ++ (record { plan_id = plan_id; leg_idx = none } ∷ []);
      }
      else e

  unfoldable pub remove_inflight : StrategyEngine D F → String → StrategyEngine D F
  remove_inflight e plan_id =
      if is_some (find e.inflight plan_id)
      then count_executed (record e { inflight = delete e.inflight plan_id })
      else e
