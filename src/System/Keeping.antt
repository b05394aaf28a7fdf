-- ===== src/System/Keeping.antt =====
-- What every event of the system keeps: the configuration, and the form of the opportunities at hand.
use arb_core.Common.{
  ℕ, ◌≤◌, ◌≡◌, inl, inr, refl, sym, ◌∙◌, Bool, true, false, Option, none, some, List, [], ◌∷◌,
  String, Outcome, ok, err, panic, arith, Bool-cases, All, ltb, length, subst,
}
use arb_core.Decimal.{Decimal}
use arb_core.MarketData.Triangle.{TriView}
use arb_core.Strategy.Config.{StrategyConfig, StrategyError}
use arb_core.Strategy.Detector.{Opportunity, detect_triangular_opportunities}
use arb_core.Strategy.Planner.{TradePlan}
use arb_core.Strategy.Engine.{StrategyEngine, ExecutionReport, CancelRequest}
use arb_core.Strategy.Engine.Detector.{handle_opportunity}
use arb_core.Strategy.Engine.Monitor.{scan_timeouts, to_cancel, handle_exec_report}
use arb_core.Strategy.Engine.Inflight.{handle_exec_report-Shrinks}
use arb_core.System.State.{
  System, Job, Event, view_comes, tick, take_view, forward_plan, start_worker, forward_report,
  handle_report, forward_cancel, take_cancel, next_chance, work, finish, bound,
}
use arb_core.System.Actions.{
  fire, next_view, detect, on_detected, take_chance, after_chance, pass_plan, spawn, worked,
  finished, pass_report, monitor, pass_cancel, cancel, work_at, finish_at,
}
use arb_core.System.Engine.{cancel_plans-Shrinks, handle_opportunity-cfg, handle_opportunity-within}
use arb_core.System.Ready.{HasThreeLegs, Fits, detect-Fits}

module _ {D F : Type 0} ⦃d : Decimal D⦄ where
  pub record IsReady (cfg : StrategyConfig D F) (s : System D F) : Type 0 where
    pub same_cfg : s.engine.cfg ≡ cfg
    pub three : All HasThreeLegs s.chances
    pub within : length s.engine.inflight ≤ cfg.max_concurrent_plans

  -- An event that leaves the configuration and the opportunities, and lets no plan in.
  record Leaves (s s' : System D F) : Type 0 where
    cfg : s'.engine.cfg ≡ s.engine.cfg
    chances : s'.chances ≡ s.chances
    no_more : length s'.engine.inflight ≤ length s.engine.inflight

  module _ (cfg : StrategyConfig D F) where
    left-IsReady : (s s' : System D F) → Leaves s s' → IsReady cfg s → IsReady cfg s'
    left-IsReady s s' k v = record {
      same_cfg = k.cfg ∙ v.same_cfg;
      three = subst (All HasThreeLegs) (sym k.chances) v.three;
      within = omega (arith, k.no_more, v.within);
    }

    detected-IsReady :
        (s : System D F) (views : List (TriView D))
        (r : Outcome (StrategyError D) (List (Opportunity D)))
        → Fits 2 r
        → IsReady cfg s
        → IsReady cfg (on_detected s views r)
    detected-IsReady s views (ok ops) f v = record {
      same_cfg = v.same_cfg;
      three = f.1;
      within = v.within;
    }
    detected-IsReady s views (err e) f v = record {
      same_cfg = v.same_cfg;
      three = v.three;
      within = v.within;
    }
    detected-IsReady s views panic f v = record {
      same_cfg = v.same_cfg;
      three = v.three;
      within = v.within;
    }

    view-IsReady :
        (s s' : System D F) (ops : List (Opportunity D)) (views : List (TriView D))
        → next_view s ops views ≡ some s'
        → IsReady cfg s
        → IsReady cfg s'
    view-IsReady s s' [] [] h v = cc
    view-IsReady s s' (op ∷ ops) [] h v = cc
    view-IsReady s s' (op ∷ ops) (view ∷ views) h v = cc
    view-IsReady s s' [] (view ∷ views) h v = elim (Bool-cases s.detecting) [
      | inl alive ↦
          let fees = s.engine.cfg.fee_map in
          let min = s.engine.cfg.limits.min_profit_abs in
          let same : s' ≡ detect s view views = ground arith in
          rw same (
            detected-IsReady s views (detect_triangular_opportunities view fees min)
              (detect-Fits view fees min) v)
      | inr dead ↦ absurd (ground arith)
    ]

    chanced-IsReady :
        (s : System D F) (ops : List (Opportunity D)) (r : StrategyEngine D F × Bool)
        → r.0.cfg ≡ cfg
        → All HasThreeLegs ops
        → length r.0.inflight ≤ cfg.max_concurrent_plans
        → IsReady cfg (after_chance s ops r)
    chanced-IsReady s ops (e, true) same three le = record {
      same_cfg = same;
      three = three;
      within = le;
    }
    chanced-IsReady s ops (e, false) same three le = record {
      same_cfg = same;
      three = tt;
      within = le;
    }

    chance-IsReady :
        (s s' : System D F) (ops : List (Opportunity D)) (id : String) (now : ℕ)
        → s.chances ≡ ops
        → take_chance s ops id now ≡ some s'
        → IsReady cfg s
        → IsReady cfg s'
    chance-IsReady s s' [] id now e h v = cc
    chance-IsReady s s' (op ∷ ops) id now e h v =
        let r = handle_opportunity s.engine op id now in
        let same : s' ≡ after_chance s ops r = cc in
        rw same (
          chanced-IsReady s ops r (handle_opportunity-cfg s.engine op id now ∙ v.same_cfg)
            (subst (All HasThreeLegs) e v.three).1
            (subst (λ (c : StrategyConfig D F). length r.0.inflight ≤ c.max_concurrent_plans)
              v.same_cfg
              (handle_opportunity-within s.engine op id now (
                subst
                  (λ (c : StrategyConfig D F). length s.engine.inflight ≤ c.max_concurrent_plans)
                  (sym v.same_cfg) v.within))))

    plan-Leaves :
        (s s' : System D F) (sent : List (TradePlan D)) → pass_plan s sent ≡ some s' → Leaves s s'
    plan-Leaves s s' [] h = cc
    plan-Leaves s s' (plan ∷ rest) h = record {
      cfg = ground arith;
      chances = ground arith;
      no_more = ground arith;
    }

    spawn-Leaves :
        (s s' : System D F) (plans : List (TradePlan D)) → spawn s plans ≡ some s' → Leaves s s'
    spawn-Leaves s s' [] h = cc
    spawn-Leaves s s' (plan ∷ rest) h = record {
      cfg = ground arith;
      chances = ground arith;
      no_more = ground arith;
    }

    work-Leaves :
        (s s' : System D F) (r : Option (List (ExecutionReport D) × List (Job D)))
        → worked s r ≡ some s'
        → Leaves s s'
    work-Leaves s s' none h = cc
    work-Leaves s s' (some (rs, jobs)) h = record {
      cfg = ground arith;
      chances = ground arith;
      no_more = ground arith;
    }

    finish-Leaves :
        (s s' : System D F) (r : Option (TradePlan D × List (Job D)))
        → finished s r ≡ some s'
        → Leaves s s'
    finish-Leaves s s' none h = cc
    finish-Leaves s s' (some (plan, jobs)) h = record {
      cfg = ground arith;
      chances = ground arith;
      no_more = ground arith;
    }

    report-Leaves :
        (s s' : System D F) (rs : List (ExecutionReport D))
        → pass_report s rs ≡ some s'
        → Leaves s s'
    report-Leaves s s' [] h = cc
    report-Leaves s s' (r ∷ rs) h = record {
      cfg = ground arith;
      chances = ground arith;
      no_more = ground arith;
    }

    monitor-Leaves :
        (s s' : System D F) (rs : List (ExecutionReport D)) → monitor s rs ≡ some s' → Leaves s s'
    monitor-Leaves s s' [] h = cc
    monitor-Leaves s s' (r ∷ rs) h =
        let same : s' ≡ record s { engine = handle_exec_report s.engine r; reports = rs } = cc in
        let k = handle_exec_report-Shrinks s.engine r in
        rw same (record { cfg = k.keeps_cfg; chances = refl; no_more = k.no_more })

    pass_cancel-Leaves :
        (s s' : System D F) (cs : List CancelRequest) → pass_cancel s cs ≡ some s' → Leaves s s'
    pass_cancel-Leaves s s' [] h = cc
    pass_cancel-Leaves s s' (c ∷ cs) h = record {
      cfg = ground arith;
      chances = ground arith;
      no_more = ground arith;
    }

    cancel-Leaves :
        (s s' : System D F) (cs : List CancelRequest) → cancel s cs ≡ some s' → Leaves s s'
    cancel-Leaves s s' [] h = cc
    cancel-Leaves s s' (c ∷ cs) h = record {
      cfg = ground arith;
      chances = ground arith;
      no_more = ground arith;
    }

    pub fire-IsReady :
        (s s' : System D F) (ev : Event D) → fire s ev ≡ some s' → IsReady cfg s → IsReady cfg s'
    unfolding fire scan_timeouts
    fire-IsReady s s' (view_comes view) h =
        left-IsReady s s'
          (record { cfg = ground arith; chances = ground arith; no_more = ground arith })
    fire-IsReady s s' (tick now) h =
        let same : s' ≡ record s { engine = scan_timeouts s.engine now } = cc in
        let k = cancel_plans-Shrinks s.engine (to_cancel s.engine.inflight now) in
        left-IsReady s s'
          (rw same (record { cfg = k.keeps_cfg; chances = refl; no_more = k.no_more }))
    fire-IsReady s s' take_view h = view-IsReady s s' s.chances s.views h
    fire-IsReady s s' (next_chance id now) h = chance-IsReady s s' s.chances id now refl h
    fire-IsReady s s' forward_plan h = left-IsReady s s' (plan-Leaves s s' s.engine.exec_sent h)
    fire-IsReady s s' start_worker h = left-IsReady s s' (spawn-Leaves s s' s.plans h)
    fire-IsReady s s' (work i now late) h = elim (Bool-cases (ltb (length s.responses) bound)) [
      | inl room ↦ left-IsReady s s' (work-Leaves s s' (work_at i now late s.jobs) (ground arith))
      | inr full ↦ absurd (ground arith)
    ]
    fire-IsReady s s' (finish i) h = left-IsReady s s' (finish-Leaves s s' (finish_at i s.jobs) h)
    fire-IsReady s s' forward_report h = left-IsReady s s' (report-Leaves s s' s.responses h)
    fire-IsReady s s' handle_report h = left-IsReady s s' (monitor-Leaves s s' s.reports h)
    fire-IsReady s s' forward_cancel h =
        left-IsReady s s' (pass_cancel-Leaves s s' s.engine.cancel_sent h)
    fire-IsReady s s' take_cancel h = left-IsReady s s' (cancel-Leaves s s' s.cancels h)
