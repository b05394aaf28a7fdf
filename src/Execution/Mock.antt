-- ===== src/Execution/Mock.antt =====
-- mock.rs: the worker of a plan, and the map through which a cancel request reaches it. What the
-- worker hears of its one-shot channel is an argument: by the place of the leg, whether `try_recv`
-- succeeds before it, and how the `select!` of a passive leg ends. So is the clock. A report is sent
-- whether or not it is received.
use arb_core.Common.{
  ℕ, suc, Bool, true, false, Option, none, some, List, [], ◌∷◌, ◌++◌, String, if◌then◌else◌,
}
use arb_core.Common.Dict.{Dict, find, put, delete}
use arb_core.Decimal.{Decimal, nil}
use arb_core.Strategy.Planner.{TradePlan, OrderLeg}
use arb_core.Strategy.Engine.{
  ExecutionReport, ExecStatus, filled, cancelled, partially_filled, CancelRequest,
}

-- the ends of a `select!`: the sleep is over, the channel woke it, or its poll panicked
pub data Race : Type 0 where
  slept woken crashed : Race

pub record Signals : Type 0 where
  pub cancel_heard : ℕ → Bool
  pub race : ℕ → Race

module _ {D : Type 0} ⦃d : Decimal D⦄ where
  abbrev pub report_of : TradePlan D → OrderLeg D → D → D → ExecStatus → ℕ → ExecutionReport D
  report_of plan leg filled_qty remaining_qty status timestamp = record {
    plan_id = plan.id;
    leg_idx = leg.leg_idx;
    filled_qty = filled_qty;
    remaining_qty = remaining_qty;
    status = status;
    timestamp = timestamp;
  }

  -- a report of nothing filled
  abbrev pub unfilled : TradePlan D → OrderLeg D → ExecStatus → ℕ → ExecutionReport D
  unfilled plan leg status now = report_of plan leg nil leg.qty status now

  unfoldable pub run_passive : Race → TradePlan D → OrderLeg D → ℕ → Option (ExecutionReport D)
  run_passive slept plan leg now = some (unfilled plan leg partially_filled now)
  run_passive woken plan leg now = some (unfilled plan leg cancelled now)
  run_passive crashed plan leg now = none

  -- the body of the loop over the legs; `none` is a panic
  unfoldable pub run_leg : Signals → TradePlan D → ℕ → OrderLeg D → ℕ → Option (ExecutionReport D)
  unfolding run_passive
  run_leg signals plan i leg now =
      if signals.cancel_heard i
      then some (unfilled plan leg cancelled now)
      else (if leg.is_taker
          then some (report_of plan leg leg.qty nil filled now)
          else run_passive (signals.race i) plan leg now)

  -- The loop from place i on: the reports it sends, and whether it comes to its end.
  unfoldable pub run_legs :
      Signals → (ℕ → ℕ) → TradePlan D → ℕ → List (OrderLeg D) → List (ExecutionReport D) × Bool
  unfolding run_leg
  run_legs signals clock plan i [] = ([], true)
  run_legs signals clock plan i (leg ∷ legs) = elim (run_leg signals plan i leg (clock i)) [
    | none ↦ ([], false)
    | some r ↦ let (rest, done) = run_legs signals clock plan (suc i) legs in (r ∷ rest, done)
  ]

  unfoldable pub run_plan : Signals → (ℕ → ℕ) → TradePlan D → List (ExecutionReport D) × Bool
  unfolding run_legs
  run_plan signals clock plan = run_legs signals clock plan 0 plan.legs

-- What the tasks share: the senders by plan, each the number of its worker; and the workers that
-- were sent the signal, in order.
pub record MockExecution : Type 0 where
  pub cancel_map : Dict ℕ
  pub signalled : List ℕ

-- a worker starts
unfoldable pub start_plan : MockExecution → String → ℕ → MockExecution
start_plan m plan_id worker = record m { cancel_map = put m.cancel_map plan_id worker }

-- the loop over the cancel requests; the leg that a request names is not read
unfoldable pub on_cancel : MockExecution → CancelRequest → MockExecution
on_cancel m request = elim (find m.cancel_map request.plan_id) [
  | none ↦ m
  | some worker ↦ record {
    cancel_map = delete m.cancel_map request.plan_id;
    signalled = m.signalled ++ (worker ∷ []);
  }
]

-- the clean-up of a worker
unfoldable pub finish_plan : MockExecution → String → MockExecution
finish_plan m plan_id = record m { cancel_map = delete m.cancel_map plan_id }

pub data MockEvent : Type 0 where
  start_of finish_of : String → MockEvent
  cancel_of : CancelRequest → MockEvent

-- what the tasks do to the map, in the order in which they get its lock; workers are numbered from n
unfoldable pub run_mock : ℕ → MockExecution → List MockEvent → MockExecution
unfolding start_plan on_cancel finish_plan
run_mock n m [] = m
run_mock n m (start_of plan_id ∷ events) = run_mock (suc n) (start_plan m plan_id n) events
run_mock n m (finish_of plan_id ∷ events) = run_mock n (finish_plan m plan_id) events
run_mock n m (cancel_of request ∷ events) = run_mock n (on_cancel m request) events
