-- ===== src/System/Engine.antt =====
-- The configuration of the engine and the number of plans in flight, over one event.
use arb_core.Common.{ℕ, ◌≤◌, ◌≡◌, refl, ◌∙◌, List, [], ◌∷◌, String, arith, length}
use arb_core.Decimal.{Decimal}
use arb_core.Strategy.Detector.{Opportunity}
use arb_core.Strategy.Engine.{StrategyEngine}
use arb_core.Strategy.Engine.Detector.{
  Verdict, refused, crashed, accepted, vet, register, handle_opportunity,
}
use arb_core.Strategy.Engine.Monitor.{cancel_plan, cancel_plans}
use arb_core.Strategy.Engine.Inflight.{Shrinks, cancel_plan-Shrinks, submit-Shrinks}
use arb_core.Strategy.Engine.Sending.{vet-accepted, fresh_entry}
use arb_core.Common.Dict.{length-put-le}

module _ {D F : Type 0} ⦃d : Decimal D⦄ where
  pub cancel_plans-Shrinks :
      (e : StrategyEngine D F) (ids : List String) → Shrinks e (cancel_plans e ids)
  unfolding cancel_plans
  cancel_plans-Shrinks e [] = record { keeps_cfg = refl; no_more = omega arith }
  cancel_plans-Shrinks e (id ∷ ids) =
      let first = cancel_plan-Shrinks e id in
      let rest = cancel_plans-Shrinks (cancel_plan e id) ids in
      record {
        keeps_cfg = rest.keeps_cfg ∙ first.keeps_cfg;
        no_more = omega (arith, first.no_more, rest.no_more);
      }

  pub handle_opportunity-cfg :
      (e : StrategyEngine D F) (op : Opportunity D) (id : String) (now : ℕ)
      → (handle_opportunity e op id now).0.cfg ≡ e.cfg
  unfolding handle_opportunity register
  handle_opportunity-cfg e op id now = go (vet e.cfg (length e.inflight) op id now) refl
    where
      go :
          (v : Verdict D)
          → vet e.cfg (length e.inflight) op id now ≡ v
          → (handle_opportunity e op id now).0.cfg ≡ e.cfg
      go refused f = rw (f, handle_opportunity) refl
      go crashed f = rw (f, handle_opportunity) refl
      go (accepted plan) f =
          rw (f, handle_opportunity) (submit-Shrinks (register e plan now) plan).keeps_cfg

  pub handle_opportunity-within :
      (e : StrategyEngine D F) (op : Opportunity D) (id : String) (now : ℕ)
      → length e.inflight ≤ e.cfg.max_concurrent_plans
      → length (handle_opportunity e op id now).0.inflight ≤ e.cfg.max_concurrent_plans
  unfolding handle_opportunity register
  handle_opportunity-within e op id now le = go (vet e.cfg (length e.inflight) op id now) refl
    where
      go :
          (v : Verdict D)
          → vet e.cfg (length e.inflight) op id now ≡ v
          → length (handle_opportunity e op id now).0.inflight ≤ e.cfg.max_concurrent_plans
      go refused f = rw (f, handle_opportunity) le
      go crashed f = rw (f, handle_opportunity) le
      go (accepted plan) f =
          let room = (vet-accepted e.cfg (length e.inflight) op id now plan f).0 in
          let left = (submit-Shrinks (register e plan now) plan).no_more in
          rw (f, handle_opportunity)
            (omega (arith, room, left, length-put-le e.inflight plan.id (fresh_entry e plan now)))
