-- ===== src/Strategy/Engine/Keys.antt =====
-- The map of the plans in flight has no key twice in any reachable state.
use arb_core.Common.{String, arith, Option-cases, inl, inr}
use arb_core.Common.Dict.{find, IsMap, put-IsMap, delete-IsMap}
use arb_core.Decimal.{Decimal}
use arb_core.Strategy.Config.{StrategyConfig}
use arb_core.Strategy.Planner.{TradePlan}
use arb_core.Strategy.Engine.{StrategyEngine, ExecutionReport, new_engine, remove_inflight}
use arb_core.Strategy.Engine.Detector.{register, submit}
use arb_core.Strategy.Engine.Monitor.{cancel_plan, handle_exec_report, filled_by}
use arb_core.Strategy.Engine.Inflight.{
  Phase, idle, Step, see, refuse, accept, enter, send, report, time_out, take_out, hang_up, Reach,
  here, next,
}

module _ {D F : Type 0} ⦃d : Decimal D⦄ where
  cancel_plan-IsMap :
      (e : StrategyEngine D F) (id : String) → IsMap e.inflight → IsMap (cancel_plan e id).inflight
  unfolding cancel_plan
  cancel_plan-IsMap e id h = ground (arith, delete-IsMap e.inflight id h)

  remove_inflight-IsMap :
      (e : StrategyEngine D F) (id : String)
      → IsMap e.inflight
      → IsMap (remove_inflight e id).inflight
  unfolding remove_inflight
  remove_inflight-IsMap e id h = ground (arith, delete-IsMap e.inflight id h)

  submit-IsMap :
      (e : StrategyEngine D F) (plan : TradePlan D)
      → IsMap e.inflight
      → IsMap (submit e plan).inflight
  unfolding submit
  submit-IsMap e plan h = ground (arith, delete-IsMap e.inflight plan.id h)

  handle_exec_report-IsMap :
      (e : StrategyEngine D F) (r : ExecutionReport D)
      → IsMap e.inflight
      → IsMap (handle_exec_report e r).inflight
  unfolding handle_exec_report
  handle_exec_report-IsMap e r h = elim (Option-cases (find e.inflight r.plan_id)) [
    | inl gone ↦ rw (gone, handle_exec_report) (ground arith)
    | inr (p, at) ↦
        rw (at, handle_exec_report)
          (ground (
            arith,
            delete-IsMap e.inflight r.plan_id h,
            put-IsMap e.inflight r.plan_id (filled_by p r) h,
          ))
  ]

  Step-IsMap :
      {e e' : StrategyEngine D F} {ph ph' : Phase D}
      → Step e ph e' ph'
      → IsMap e.inflight
      → IsMap e'.inflight
  unfolding register
  Step-IsMap (see e) h = h
  Step-IsMap (refuse e op id now r) h = h
  Step-IsMap (accept e op id now plan r) h = h
  Step-IsMap (enter e plan now) h = put-IsMap e.inflight plan.id _ h
  Step-IsMap (send e plan) h = submit-IsMap e plan h
  Step-IsMap (report e ph r) h = handle_exec_report-IsMap e r h
  Step-IsMap (time_out e ph id) h = cancel_plan-IsMap e id h
  Step-IsMap (take_out e ph id) h = remove_inflight-IsMap e id h
  Step-IsMap (hang_up e ph exec cancel) h = h

  -- From a new engine, however the tasks interleave, no identity has two plans in flight.
  pub Reach-IsMap :
      (cfg : StrategyConfig D F) {e : StrategyEngine D F} {ph : Phase D}
      → Reach (new_engine cfg) idle e ph
      → IsMap e.inflight
  unfolding new_engine
  Reach-IsMap cfg here = ground arith
  Reach-IsMap cfg (next r s) = Step-IsMap s (Reach-IsMap cfg r)
