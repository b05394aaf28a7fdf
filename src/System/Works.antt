-- ===== src/System/Works.antt =====
-- What a worker's next leg, and its end, do to what the system holds of one plan.
use arb_core.Common.{
  ℕ, Bool, zero, suc, ◌≡◌, inl, inr, refl, ap, ◌∙◌, false, none, some, List, [], ◌∷◌, ◌++◌, arith,
  Option-cases, List-cases,
}
use arb_core.Decimal.{Decimal}
use arb_core.Strategy.Planner.{TradePlan, OrderLeg}
use arb_core.Strategy.Engine.{ExecutionReport}
use arb_core.Execution.Mock.{Signals, run_leg}
use arb_core.System.State.{Job}
use arb_core.System.Actions.{heard, work_at, work_one, after_work, finish_at, signals_of}

module _ {D : Type 0} where
  -- A worker that has come to its end is taken out.
  pub record IsFinish (jobs : List (Job D)) (jobs' : List (Job D)) : Type 0 where
    pub before : List (Job D)
    pub after : List (Job D)
    pub job : Job D
    pub were : jobs ≡ before ++ (job ∷ after)
    pub at_end : job.rest ≡ []
    pub are : jobs' ≡ before ++ after

  pub finish_at-IsFinish :
      (i : ℕ) (jobs : List (Job D)) (plan : TradePlan D) (jobs' : List (Job D))
      → finish_at i jobs ≡ some (plan, jobs')
      → IsFinish jobs jobs'
  finish_at-IsFinish i [] plan jobs' h = cc
  finish_at-IsFinish zero (j ∷ jobs) plan jobs' h = elim (List-cases j.rest) [
    | inl done ↦ record {
      before = [];
      after = jobs;
      job = j;
      were = refl;
      at_end = done;
      are = ground arith;
    }
    | inr (leg, legs, e) ↦ absurd (ground arith)
  ]
  finish_at-IsFinish (suc i) (j ∷ jobs) plan jobs' h = elim (Option-cases (finish_at i jobs)) [
    | inl nobody ↦ absurd (ground arith)
    | inr ((p, later), e) ↦
        let v = finish_at-IsFinish i jobs p later e in
        record {
          before = j ∷ v.before;
          after = v.after;
          job = v.job;
          were = ap (λ js. j ∷ js) v.were;
          at_end = v.at_end;
          are = let same : jobs' ≡ j ∷ later = ground arith in same ∙ ap (λ js. j ∷ js) v.are;
        }
  ]

module _ {D : Type 0} ⦃d : Decimal D⦄ where
  -- A worker has come to its next leg.
  pub record IsWork (now : ℕ) (late : Bool) (jobs : List (Job D)) (rs : List (ExecutionReport D))
      (jobs' : List (Job D)) : Type 0 where
    pub before : List (Job D)
    pub after : List (Job D)
    pub job : Job D
    pub leg : OrderLeg D
    pub legs : List (OrderLeg D)
    pub instead : List (Job D)
    pub were : jobs ≡ before ++ (job ∷ after)
    pub at_leg : job.rest ≡ leg ∷ legs
    pub outcome :
        after_work late job legs
          (run_leg (signals_of (heard late job.signal)) job.plan job.place leg now)
        ≡ (rs, instead)
    pub are : jobs' ≡ before ++ (instead ++ after)

  pub work_at-IsWork :
      (i now : ℕ) (late : Bool) (jobs : List (Job D)) (rs : List (ExecutionReport D))
      (jobs' : List (Job D))
      → work_at i now late jobs ≡ some (rs, jobs')
      → IsWork now late jobs rs jobs'
  unfolding work_at work_one
  work_at-IsWork i now late [] rs jobs' h = cc
  work_at-IsWork zero now late (j ∷ jobs) rs jobs' h = elim (List-cases j.rest) [
    | inl done ↦ absurd (ground arith)
    | inr (leg, legs, e) ↦
        let out =
          after_work late j legs
            (run_leg (signals_of (heard late j.signal)) j.plan j.place leg now) in
        record {
          before = [];
          after = jobs;
          job = j;
          leg = leg;
          legs = legs;
          instead = out.1;
          were = refl;
          at_leg = e;
          outcome = ground arith;
          are = ground arith;
        }
  ]
  work_at-IsWork (suc i) now late (j ∷ jobs) rs jobs' h =
      elim (Option-cases (work_at i now late jobs)) [
        | inl nobody ↦ absurd (ground arith)
        | inr ((qs, later), e) ↦
            let v = work_at-IsWork i now late jobs qs later e in
            let same : jobs' ≡ j ∷ later = ground arith in
            let sent : rs ≡ qs = ground arith in
            record {
              before = j ∷ v.before;
              after = v.after;
              job = v.job;
              leg = v.leg;
              legs = v.legs;
              instead = v.instead;
              were = ap (λ js. j ∷ js) v.were;
              at_leg = v.at_leg;
              outcome = rw sent v.outcome;
              are = same ∙ ap (λ js. j ∷ js) v.are;
            }
      ]

  pub run_leg-none :
      (signals : Signals) (plan : TradePlan D) (i : ℕ) (leg : OrderLeg D) (now : ℕ)
      → run_leg signals plan i leg now ≡ none
      → leg.is_taker ≡ false
  unfolding run_leg
  run_leg-none signals plan i leg now h = ground arith
