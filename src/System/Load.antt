-- ===== src/System/Load.antt =====
-- How much work the system has before it: what is in its channels, weighed by what can come of it.
use arb_core.Common.{
  ℕ, ◌+◌, ◌*◌, ◌≤◌, ◌≡◌, inl, inr, refl, Option, none, some, List, [], ◌∷◌, ◌++◌, String, arith,
  length, length-append, Option-cases,
}
use arb_core.Common.Dict.{find}
use arb_core.Decimal.{Decimal}
use arb_core.Strategy.Detector.{Opportunity}
use arb_core.Strategy.Planner.{TradePlan}
use arb_core.Strategy.Plans.Places.{build_trade_plan-IsIndexed}
use arb_core.Strategy.Engine.{StrategyEngine, ExecutionReport, send_cancel}
use arb_core.Strategy.Engine.Detector.{
  Verdict, refused, crashed, accepted, vet, register, submit, handle_opportunity,
}
use arb_core.Strategy.Engine.Monitor.{handle_exec_report, update_plan}
use arb_core.Strategy.Engine.Sending.{vet-accepted}
use arb_core.System.State.{System, Job}
use arb_core.System.Actions.{signal_jobs}
use arb_core.System.Ready.{HasThreeLegs}

module _ {A : Type 0} where
  abbrev pub sum_of : (A → ℕ) → List A → ℕ
  sum_of f [] = 0
  sum_of f (x ∷ xs) = f x + sum_of f xs

  pub sum_of-append : (f : A → ℕ) (xs ys : List A) → sum_of f (xs ++ ys) ≡ sum_of f xs + sum_of f ys
  sum_of-append f [] ys = omega arith
  sum_of-append f (x ∷ xs) ys = omega (arith, sum_of-append f xs ys)

module _ {D : Type 0} where
  -- A leg can give a report, a report a cancel request; each weighs more than what it gives.
  abbrev pub job_load : Job D → ℕ
  job_load j = 1 + 5 * length j.rest

  abbrev pub plan_load : ℕ → TradePlan D → ℕ
  plan_load n plan = n + 5 * length plan.legs

  pub signal_jobs-load :
      (to : Option ℕ) (jobs : List (Job D))
      → sum_of job_load (signal_jobs to jobs) ≡ sum_of job_load jobs
  signal_jobs-load none jobs = refl
  signal_jobs-load (some worker) [] = refl
  signal_jobs-load (some worker) (j ∷ jobs) =
      let ih = signal_jobs-load (some worker) jobs in ground arith

module _ {D F : Type 0} where
  abbrev pub engine_load : StrategyEngine D F → ℕ
  engine_load e = sum_of (plan_load 3) e.exec_sent + 2 * length e.cancel_sent

  -- An opportunity has three legs, and a view gives two of them at most.
  abbrev pub load : System D F → ℕ
  load s =
      39 * length s.views
      + 19 * length s.chances
      + engine_load s.engine
      + sum_of (plan_load 2) s.plans
      + sum_of job_load s.jobs
      + 4 * length s.responses
      + 3 * length s.reports
      + length s.cancels

module _ {D F : Type 0} ⦃d : Decimal D⦄ where
  -- A report lets one cancel request go at most.
  pub handle_exec_report-load :
      (e : StrategyEngine D F) (r : ExecutionReport D)
      → engine_load (handle_exec_report e r) ≤ engine_load e + 2
  unfolding handle_exec_report update_plan send_cancel
  handle_exec_report-load e r = elim (Option-cases (find e.inflight r.plan_id)) [
    | inl gone ↦ rw (gone, handle_exec_report) (ground arith)
    | inr (p, at) ↦
        rw (at, handle_exec_report)
          (ground (
            arith,
            length-append e.cancel_sent (record { plan_id = r.plan_id; leg_idx = none } ∷ []),
          ))
  ]

  -- An opportunity sends one plan at most, with as many legs.
  pub handle_opportunity-load :
      (e : StrategyEngine D F) (op : Opportunity D) (id : String) (now : ℕ)
      → HasThreeLegs op
      → engine_load (handle_opportunity e op id now).0 ≤ engine_load e + 18
  unfolding handle_opportunity submit register
  handle_opportunity-load e op id now three = go (vet e.cfg (length e.inflight) op id now) refl
    where
      go :
          (v : Verdict D)
          → vet e.cfg (length e.inflight) op id now ≡ v
          → engine_load (handle_opportunity e op id now).0 ≤ engine_load e + 18
      go refused f = rw (f, handle_opportunity) (omega arith)
      go crashed f = rw (f, handle_opportunity) (omega arith)
      go (accepted plan) f =
          let (room, checks, built) = vet-accepted e.cfg (length e.inflight) op id now plan f in
          let (idx, len) = build_trade_plan-IsIndexed e.cfg op id now plan (omega arith) built in
          rw (f, handle_opportunity)
            (ground (arith, sum_of-append (plan_load 3) e.exec_sent (plan ∷ [])))
