-- ===== src/Strategy/Engine/Monitor.antt =====
-- The monitor task of engine.rs: execution reports and the scan for timeouts.
use arb_core.Common.{
  ℕ, zero, suc, ◌-◌, ◌%◌, Bool, true, false, ◌&&◌, Option, none, some, List, [], ◌∷◌, ◌++◌, String,
  if◌then◌else◌, ltb, get_elem?, length, is_some, u64_mod,
}
use arb_core.Common.Dict.{Dict, find, put, delete}
use arb_core.Decimal.{Decimal, is_le}
use arb_core.Strategy.Planner.{OrderLeg}
use arb_core.Strategy.Engine.{
  StrategyEngine, InFlightPlan, ExecutionReport, ExecStatus, new, partially_filled, filled,
  cancelled, rejected, error, Fill, send_cancel, count_executed, count_cancelled,
}

-- the words of the storage
abbrev side_word : Bool → String
side_word true = "buy"
side_word false = "sell"

unfoldable pub status_word : ExecStatus → String
status_word new = "new"
status_word partially_filled = "partial"
status_word filled = "filled"
status_word cancelled = "cancelled"
status_word rejected = "rejected"
status_word (error reason) = "error"

-- whether a report asks to cancel the other legs
abbrev pub cancels_legs : ExecStatus → Bool
cancels_legs rejected = true
cancels_legs partially_filled = true
cancels_legs filled = false
cancels_legs cancelled = false
cancels_legs new = false
cancels_legs (error reason) = false

module _ {D : Type 0} where
  unfoldable pub fill_of_leg : ExecutionReport D → Option (OrderLeg D) → List (Fill D)
  unfolding status_word
  fill_of_leg report none = []
  fill_of_leg report (some leg) =
      record {
        plan_id = report.plan_id;
        leg_idx = report.leg_idx;
        symbol = leg.symbol;
        side = side_word leg.buy_base;
        qty = report.filled_qty;
        price = leg.price_hint;
        status = status_word report.status;
        exchange = "binance";
      }
      ∷ []

  -- what a report adds to the storage: nothing for an unknown plan or leg
  unfoldable pub storage_data : Dict (InFlightPlan D) → ExecutionReport D → List (Fill D)
  unfolding fill_of_leg
  storage_data inflight report = elim (find inflight report.plan_id) [
    | none ↦ []
    | some p ↦ fill_of_leg report (get_elem? p.plan.legs report.leg_idx)
  ]

  -- the time since the submission, cut to a `u64`
  abbrev pub age : ℕ → InFlightPlan D → ℕ
  age now p = (now - p.submitted_at) % u64_mod

  unfoldable pub list_inflight : Dict (InFlightPlan D) → ℕ → List (String × ℕ × ℕ)
  list_inflight [] now = []
  list_inflight ((id, p) ∷ rest) now = (id, length p.plan.legs, age now p) ∷ list_inflight rest now

  -- the plans whose time is up
  unfoldable pub to_cancel : Dict (InFlightPlan D) → ℕ → List String
  to_cancel [] now = []
  to_cancel ((id, p) ∷ rest) now =
      if ltb p.timeout_ms (age now p) then id ∷ to_cancel rest now else to_cancel rest now

module _ {D F : Type 0} where
  -- the body of the second loop of `scan_timeouts`
  unfoldable pub cancel_plan : StrategyEngine D F → String → StrategyEngine D F
  unfolding send_cancel
  cancel_plan e plan_id =
      let sent = send_cancel e plan_id in
      if is_some (find e.inflight plan_id)
      then count_cancelled (record sent { inflight = delete e.inflight plan_id })
      else sent

  unfoldable pub cancel_plans : StrategyEngine D F → List String → StrategyEngine D F
  cancel_plans e [] = e
  cancel_plans e (id ∷ ids) = cancel_plans (cancel_plan e id) ids

  unfoldable pub scan_timeouts : StrategyEngine D F → ℕ → StrategyEngine D F
  unfolding to_cancel cancel_plans
  scan_timeouts e now = cancel_plans e (to_cancel e.inflight now)

module _ {D : Type 0} ⦃d : Decimal D⦄ where
  open d use {saturating_add}

  -- the update of `filled`, which an index out of range leaves as it is
  unfoldable pub add_filled : List D → ℕ → D → List D
  add_filled [] idx qty = []
  add_filled (x ∷ xs) zero qty = saturating_add x qty ∷ xs
  add_filled (x ∷ xs) (suc idx) qty = x ∷ add_filled xs idx qty

  -- `zip` and `all`
  unfoldable pub all_legged : List D → List (OrderLeg D) → Bool
  all_legged [] legs = true
  all_legged (x ∷ xs) [] = true
  all_legged (x ∷ xs) (leg ∷ legs) = is_le leg.qty x && all_legged xs legs

  abbrev pub filled_by : InFlightPlan D → ExecutionReport D → InFlightPlan D
  filled_by p report = record p { filled = add_filled p.filled report.leg_idx report.filled_qty }

  -- whether a report ends its plan
  unfoldable pub ends_plan : ExecStatus → InFlightPlan D → Bool
  unfolding all_legged
  ends_plan filled p = all_legged p.filled p.plan.legs
  ends_plan cancelled p = true
  ends_plan rejected p = true
  ends_plan partially_filled p = true
  ends_plan new p = false
  ends_plan (error reason) p = false

  module _ {F : Type 0} where
    abbrev pub persist : StrategyEngine D F → ExecutionReport D → StrategyEngine D F
    persist e report =
        if e.has_storage then record e { fills = e.fills ++ storage_data e.inflight report } else e

    -- the part under the second lock, for a plan that is in flight
    unfoldable pub update_plan :
        StrategyEngine D F → ExecutionReport D → InFlightPlan D → StrategyEngine D F
    unfolding send_cancel ends_plan add_filled
    update_plan e report p =
        let p' = filled_by p report in
        let told = if cancels_legs report.status then send_cancel e report.plan_id else e in
        if ends_plan report.status p'
        then count_executed (record told { inflight = delete e.inflight report.plan_id })
        else record told { inflight = put e.inflight report.plan_id p' }

    unfoldable pub handle_exec_report : StrategyEngine D F → ExecutionReport D → StrategyEngine D F
    unfolding storage_data update_plan
    handle_exec_report e report =
        let kept = persist e report in
        elim (find e.inflight report.plan_id) [ none ↦ kept | some p ↦ update_plan kept report p ]
