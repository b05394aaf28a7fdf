-- ===== src/Strategy/Engine/Inflight.antt =====
-- The two tasks of the engine, interleaved at every lock: how many plans are ever in flight.
use arb_core.Common.{
  ℕ, ◌+◌, ◌≤◌, ◌<◌, ◌≡◌, refl, ap, ◌∙◌, Bool, true, String, arith, length, Option-cases, inl, inr,
  leb, Bool-cases,
}
use arb_core.Common.Dict.{find, length-put-le, length-delete-le, length-put_present}
use arb_core.Decimal.{Decimal}
use arb_core.Strategy.Config.{StrategyConfig}
use arb_core.Strategy.Detector.{Opportunity}
use arb_core.Strategy.Planner.{TradePlan}
use arb_core.Strategy.Engine.{
  StrategyEngine, ExecutionReport, new_engine, remove_inflight, count_seen, count_rejected,
}
use arb_core.Strategy.Engine.Detector.{
  Verdict, refused, crashed, accepted, vet, register, submit, handle_opportunity,
}
use arb_core.Strategy.Engine.Monitor.{cancel_plan, handle_exec_report, filled_by}

-- where the detector stands: before an opportunity, or with a plan that passed the checks, which is
-- not yet in flight, or is and not yet sent
pub data Phase (D : Type 0) : Type 0 where
  idle : Phase D
  vetted registered : TradePlan D → Phase D

-- the plans that are about to enter
abbrev pending : {D : Type 0} → Phase D → ℕ
pending idle = 0
pending (vetted plan) = 1
pending (registered plan) = 0

module _ {D F : Type 0} ⦃d : Decimal D⦄ where
  -- One action of one task; the monitor's and the outside's may come between any two of the detector.
  pub data Step : StrategyEngine D F → Phase D → StrategyEngine D F → Phase D → Type 0 where
    see : (e : StrategyEngine D F) → Step e idle (count_seen e) idle
    refuse :
        (e : StrategyEngine D F) (op : Opportunity D) (id : String) (now : ℕ)
        → vet e.cfg (length e.inflight) op id now ≡ refused
        → Step e idle (count_rejected e) idle
    accept :
        (e : StrategyEngine D F) (op : Opportunity D) (id : String) (now : ℕ) (plan : TradePlan D)
        → vet e.cfg (length e.inflight) op id now ≡ accepted plan
        → Step e idle e (vetted plan)
    enter :
        (e : StrategyEngine D F) (plan : TradePlan D) (now : ℕ)
        → Step e (vetted plan) (register e plan now) (registered plan)
    send :
        (e : StrategyEngine D F) (plan : TradePlan D)
        → Step e (registered plan) (submit e plan) idle
    report :
        (e : StrategyEngine D F) (ph : Phase D) (r : ExecutionReport D)
        → Step e ph (handle_exec_report e r) ph
    time_out :
        (e : StrategyEngine D F) (ph : Phase D) (id : String) → Step e ph (cancel_plan e id) ph
    take_out :
        (e : StrategyEngine D F) (ph : Phase D) (id : String) → Step e ph (remove_inflight e id) ph
    hang_up :
        (e : StrategyEngine D F) (ph : Phase D) (exec cancel : Bool)
        → Step e ph (record e { exec_open = exec; cancel_open = cancel }) ph

  pub data Reach (e₀ : StrategyEngine D F) (ph₀ : Phase D)
      : StrategyEngine D F → Phase D → Type 0 where
    here : Reach e₀ ph₀ e₀ ph₀
    next :
        {e e' : StrategyEngine D F} {ph ph' : Phase D}
        → Reach e₀ ph₀ e ph
        → Step e ph e' ph'
        → Reach e₀ ph₀ e' ph'

  -- The plans in flight, with the one about to enter, are no more than the configuration allows.
  record IsWithin (cfg : StrategyConfig D F) (e : StrategyEngine D F) (ph : Phase D) : Type 0 where
    same_cfg : e.cfg ≡ cfg
    within : length e.inflight + pending ph ≤ cfg.max_concurrent_plans

  -- An action that lets no plan in.
  pub record Shrinks (e e' : StrategyEngine D F) : Type 0 where
    pub keeps_cfg : e'.cfg ≡ e.cfg
    pub no_more : length e'.inflight ≤ length e.inflight

  pub cancel_plan-Shrinks : (e : StrategyEngine D F) (id : String) → Shrinks e (cancel_plan e id)
  unfolding cancel_plan
  cancel_plan-Shrinks e id = ground (arith, length-delete-le e.inflight id)

  remove_inflight-Shrinks :
      (e : StrategyEngine D F) (id : String) → Shrinks e (remove_inflight e id)
  unfolding remove_inflight
  remove_inflight-Shrinks e id = ground (arith, length-delete-le e.inflight id)

  pub submit-Shrinks : (e : StrategyEngine D F) (plan : TradePlan D) → Shrinks e (submit e plan)
  unfolding submit
  submit-Shrinks e plan = ground (arith, length-delete-le e.inflight plan.id)

  pub handle_exec_report-Shrinks :
      (e : StrategyEngine D F) (r : ExecutionReport D) → Shrinks e (handle_exec_report e r)
  unfolding handle_exec_report
  handle_exec_report-Shrinks e r = elim (Option-cases (find e.inflight r.plan_id)) [
    | inl gone ↦ rw (gone, handle_exec_report) (ground arith)
    | inr (p, at) ↦
        rw (at, handle_exec_report)
          (ground (
            arith,
            length-delete-le e.inflight r.plan_id,
            length-put_present e.inflight r.plan_id (filled_by p r) p at,
          ))
  ]

  vet-room :
      (cfg : StrategyConfig D F) (n : ℕ) (op : Opportunity D) (id : String) (now : ℕ)
      (plan : TradePlan D)
      → vet cfg n op id now ≡ accepted plan
      → n < cfg.max_concurrent_plans
  unfolding vet
  vet-room cfg n op id now plan h = elim (Bool-cases (leb cfg.max_concurrent_plans n)) [
    | inl full ↦ ground arith
    | inr room ↦ ground arith
  ]

  shrink-IsWithin :
      (cfg : StrategyConfig D F) (e e' : StrategyEngine D F) (ph : Phase D)
      → Shrinks e e'
      → IsWithin cfg e ph
      → IsWithin cfg e' ph
  shrink-IsWithin cfg e e' ph s v = record {
    same_cfg = s.keeps_cfg ∙ v.same_cfg;
    within = omega (arith, s.no_more, v.within);
  }

  Step-IsWithin :
      (cfg : StrategyConfig D F) {e e' : StrategyEngine D F} {ph ph' : Phase D}
      → Step e ph e' ph'
      → IsWithin cfg e ph
      → IsWithin cfg e' ph'
  unfolding register
  Step-IsWithin cfg (see e) v = record { same_cfg = v.same_cfg; within = v.within }
  Step-IsWithin cfg (refuse e op id now h) v = record { same_cfg = v.same_cfg; within = v.within }
  Step-IsWithin cfg (accept e op id now plan h) v =
      let room = vet-room e.cfg (length e.inflight) op id now plan h in
      let same = ap (λ (c : StrategyConfig D F). c.max_concurrent_plans) v.same_cfg in
      record { same_cfg = v.same_cfg; within = omega arith }
  Step-IsWithin cfg (enter e plan now) v = record {
    same_cfg = v.same_cfg;
    within = omega (arith, v.within, length-put-le e.inflight plan.id);
  }
  Step-IsWithin cfg (send e plan) v =
      let s = submit-Shrinks e plan in
      record { same_cfg = s.keeps_cfg ∙ v.same_cfg; within = omega (arith, s.no_more, v.within) }
  Step-IsWithin cfg (report e ph r) v =
      shrink-IsWithin cfg e _ ph (handle_exec_report-Shrinks e r) v
  Step-IsWithin cfg (time_out e ph id) v = shrink-IsWithin cfg e _ ph (cancel_plan-Shrinks e id) v
  Step-IsWithin cfg (take_out e ph id) v =
      shrink-IsWithin cfg e _ ph (remove_inflight-Shrinks e id) v
  Step-IsWithin cfg (hang_up e ph exec cancel) v = record {
    same_cfg = v.same_cfg;
    within = v.within;
  }

  Reach-IsWithin :
      (cfg : StrategyConfig D F) {e : StrategyEngine D F} {ph : Phase D} {e' : StrategyEngine D F}
      {ph' : Phase D}
      → IsWithin cfg e ph
      → Reach e ph e' ph'
      → IsWithin cfg e' ph'
  Reach-IsWithin cfg v here = v
  Reach-IsWithin cfg v (next r s) = Step-IsWithin cfg s (Reach-IsWithin cfg v r)

  new-IsWithin : (cfg : StrategyConfig D F) → IsWithin cfg (new_engine cfg) idle
  unfolding new_engine
  new-IsWithin cfg = record { same_cfg = refl; within = omega arith }

  -- From a new engine, however the detector, the monitor and the callers interleave and whatever
  -- reports and timeouts come, the plans in flight are never more than the configured limit.
  pub inflight-le-max :
      (cfg : StrategyConfig D F) {e : StrategyEngine D F} {ph : Phase D}
      → Reach (new_engine cfg) idle e ph
      → length e.inflight ≤ cfg.max_concurrent_plans
  inflight-le-max cfg r = omega (arith, (Reach-IsWithin cfg (new-IsWithin cfg) r).within)

  -- The detector's loop body is such an interleaving, with no action of others in between.
  pub handle_opportunity-Reach :
      (e e' : StrategyEngine D F) (op : Opportunity D) (id : String) (now : ℕ)
      → handle_opportunity e op id now ≡ (e', true)
      → Reach e idle e' idle
  unfolding handle_opportunity
  handle_opportunity-Reach e e' op id now h = go (vet e.cfg (length e.inflight) op id now) refl
    where
      go : (v : Verdict D) → vet e.cfg (length e.inflight) op id now ≡ v → Reach e idle e' idle
      go refused f =
          let same : e' ≡ count_rejected e = ground arith in
          rw same (next here (refuse e op id now f))
      go crashed f = absurd (ground arith)
      go (accepted plan) f =
          let same : e' ≡ submit (register e plan now) plan = ground arith in
          rw same (
            next (next (next here (accept e op id now plan f)) (enter e plan now))
              (send (register e plan now) plan))
