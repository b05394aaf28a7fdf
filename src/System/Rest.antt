-- ===== src/System/Rest.antt =====
-- When the system is at rest: nothing but a view or the ticker can wake it.
use arb_core.Common.{
  ◌≡◌, ◌↔◌, ◌⊎◌, inl, inr, refl, false, none, List, [], ◌∷◌, String, arith, eq_refl, List-cases,
}
use arb_core.Common.Dict.{Dict, find}
use arb_core.Decimal.{Decimal, AddsToNil}
use arb_core.MarketData.Triangle.{TriView}
use arb_core.Strategy.Config.{StrategyConfig, aggressive}
use arb_core.Strategy.Detector.{Opportunity}
use arb_core.Strategy.Planner.{TradePlan}
use arb_core.Strategy.Engine.{ExecutionReport, CancelRequest, InFlightPlan}
use arb_core.System.State.{
  System, Job, Event, view_comes, tick, take_view, forward_plan, start_worker, forward_report,
  handle_report, forward_cancel, take_cancel, next_chance, work, finish, new_system,
}
use arb_core.System.Actions.{
  fire, next_view, take_chance, pass_plan, spawn, worked, finished, pass_report, monitor,
  pass_cancel, cancel, work_at, work_one, finish_at, run_system,
}
use arb_core.System.Views.{view_of}
use arb_core.System.Opened.{IsFollowed-end}
use arb_core.System.Runs.{AreFresh, new_system-IsFollowed}

module _ {D : Type 0} where
  -- an event that is work of the system's own tasks
  abbrev pub IsInternal : Event D → Type 0
  IsInternal (view_comes view) = ⊥
  IsInternal (tick now) = ⊥
  IsInternal _ = Unit

  find-none : (m : Dict (InFlightPlan D)) → ((id : String) → find m id ≡ none) → m ≡ []
  unfolding find
  find-none [] h = refl
  find-none ((id, p) ∷ m) h = let at = h id in absurd (ground (arith, eq_refl id))

module _ {D F : Type 0} ⦃d : Decimal D⦄ where
  -- None of its tasks has anything that it can do.
  abbrev pub IsAtRest : System D F → Type 0
  IsAtRest s = (ev : Event D) → IsInternal ev → fire s ev ≡ none

  -- No channel holds anything and no worker runs; views may wait for a detector that died.
  pub record IsIdle (s : System D F) : Type 0 where
    pub no_chance : s.chances ≡ []
    pub none_sent : s.engine.exec_sent ≡ []
    pub no_plan : s.plans ≡ []
    pub no_job : s.jobs ≡ []
    pub no_response : s.responses ≡ []
    pub no_report : s.reports ≡ []
    pub none_cancelled : s.engine.cancel_sent ≡ []
    pub no_cancel : s.cancels ≡ []
    pub no_view : (s.views ≡ []) ⊎ (s.detecting ≡ false)

  no_chance-of :
      (s : System D F) (ops : List (Opportunity D)) → take_chance s ops "" 0 ≡ none → ops ≡ []
  no_chance-of s [] h = refl
  no_chance-of s (op ∷ ops) h = cc

  no_plan-of : (s : System D F) (plans : List (TradePlan D)) → spawn s plans ≡ none → plans ≡ []
  no_plan-of s [] h = refl
  no_plan-of s (plan ∷ plans) h = cc

  none_sent-of :
      (s : System D F) (plans : List (TradePlan D))
      → s.plans ≡ []
      → pass_plan s plans ≡ none
      → plans ≡ []
  none_sent-of s [] e h = refl
  none_sent-of s (plan ∷ plans) e h = absurd (ground arith)

  no_response-of :
      (s : System D F) (rs : List (ExecutionReport D)) → pass_report s rs ≡ none → rs ≡ []
  no_response-of s [] h = refl
  no_response-of s (r ∷ rs) h = cc

  no_report-of : (s : System D F) (rs : List (ExecutionReport D)) → monitor s rs ≡ none → rs ≡ []
  no_report-of s [] h = refl
  no_report-of s (r ∷ rs) h = cc

  no_cancel-of : (s : System D F) (cs : List CancelRequest) → cancel s cs ≡ none → cs ≡ []
  no_cancel-of s [] h = refl
  no_cancel-of s (c ∷ cs) h = cc

  none_cancelled-of :
      (s : System D F) (cs : List CancelRequest)
      → s.cancels ≡ []
      → pass_cancel s cs ≡ none
      → cs ≡ []
  none_cancelled-of s [] e h = refl
  none_cancelled-of s (c ∷ cs) e h = absurd (ground arith)

  no_view-of :
      (s : System D F) (ops : List (Opportunity D)) (views : List (TriView D))
      → ops ≡ []
      → next_view s ops views ≡ none
      → (views ≡ []) ⊎ (s.detecting ≡ false)
  no_view-of s ops [] e h = inl refl
  no_view-of s [] (view ∷ views) e h = inr (ground arith)
  no_view-of s (op ∷ ops) (view ∷ views) e h = absurd (ground arith)

  -- A worker either finishes or comes to its next leg.
  no_job-of :
      (s : System D F) (jobs : List (Job D))
      → finished s (finish_at 0 jobs) ≡ none
      → worked s (work_at 0 0 false jobs) ≡ none
      → jobs ≡ []
  unfolding work_at work_one
  no_job-of s [] done at = refl
  no_job-of s (j ∷ jobs) done at = elim (List-cases j.rest) [
    | inl e ↦ absurd (ground arith)
    | inr (leg, legs, e) ↦ absurd (ground arith)
  ]

  rest-IsIdle : (s : System D F) → IsAtRest s → IsIdle s
  unfolding fire
  rest-IsIdle s rest =
      let chances = no_chance-of s s.chances (rest (next_chance "" 0) tt) in
      let plans = no_plan-of s s.plans (rest start_worker tt) in
      let responses = no_response-of s s.responses (rest forward_report tt) in
      let cancels = no_cancel-of s s.cancels (rest take_cancel tt) in
      let stuck = rest (work 0 0 false) tt in
      record {
        no_chance = chances;
        none_sent = none_sent-of s s.engine.exec_sent plans (rest forward_plan tt);
        no_plan = plans;
        no_job = no_job-of s s.jobs (rest (finish 0) tt) (ground arith);
        no_response = responses;
        no_report = no_report-of s s.reports (rest handle_report tt);
        none_cancelled = none_cancelled-of s s.engine.cancel_sent cancels (rest forward_cancel tt);
        no_cancel = cancels;
        no_view = no_view-of s s.chances s.views chances (rest take_view tt);
      }

  dead-next_view :
      (s : System D F) (ops : List (Opportunity D)) (views : List (TriView D))
      → s.detecting ≡ false
      → next_view s ops views ≡ none
  dead-next_view s [] [] e = refl
  dead-next_view s [] (view ∷ views) e = rw e refl
  dead-next_view s (op ∷ ops) [] e = refl
  dead-next_view s (op ∷ ops) (view ∷ views) e = refl

  idle-IsAtRest : (s : System D F) → IsIdle s → IsAtRest s
  unfolding fire work_at
  idle-IsAtRest s v (view_comes view) i = absurd i
  idle-IsAtRest s v (tick now) i = absurd i
  idle-IsAtRest s v take_view i = elim v.no_view [
    | inl read ↦ rw (v.no_chance, read) refl
    | inr dead ↦ dead-next_view s s.chances s.views dead
  ]
  idle-IsAtRest s v (next_chance id now) i = rw v.no_chance refl
  idle-IsAtRest s v forward_plan i = rw v.none_sent refl
  idle-IsAtRest s v start_worker i = rw v.no_plan refl
  idle-IsAtRest s v (work k now late) i = rw (v.no_response, v.no_job) refl
  idle-IsAtRest s v (finish k) i = rw v.no_job refl
  idle-IsAtRest s v forward_report i = rw v.no_response refl
  idle-IsAtRest s v handle_report i = rw v.no_report refl
  idle-IsAtRest s v forward_cancel i = rw v.none_cancelled refl
  idle-IsAtRest s v take_cancel i = rw v.no_cancel refl

  -- In every state, the tasks have nothing that they can do exactly when every channel is empty, no
  -- worker runs and each view was read or the detector is dead: no task waits for room in a channel
  -- that nobody empties.
  pub rest_iff : (s : System D F) → IsAtRest s ↔ IsIdle s
  rest_iff s = (rest-IsIdle s, idle-IsAtRest s)

  -- From the start, with an aggressive configuration, an identity of its own for every plan, and a sum
  -- with zero that is no less than what is added: if the tasks have nothing left that they can do, no
  -- plan is in flight, whatever happened before and in whatever order.
  pub rest-no_inflight :
      (cfg : StrategyConfig D F) (evs : List (Event D))
      → AddsToNil D
      → cfg.aggression ≡ aggressive
      → AreFresh evs
      → IsAtRest (run_system (new_system cfg) evs)
      → (run_system (new_system cfg) evs).engine.inflight ≡ []
  rest-no_inflight cfg evs adds taking fresh rest =
      let s = run_system (new_system cfg) evs in
      let idle = rest-IsIdle s rest in
      find-none s.engine.inflight (λ id.
        IsFollowed-end id (view_of id s) (rw (idle.no_job, idle.no_plan, idle.none_sent) refl)
          (rw (idle.no_report, idle.no_response) refl)
          (new_system-IsFollowed cfg id evs adds taking fresh))
