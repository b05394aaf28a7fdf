-- ===== src/System/Steps.antt =====
-- What each event of the system does to what it holds of one plan.
use mathlib.Core.List.{append_assoc, map-append}
use arb_core.Common.{
  ℕ, ◌≡◌, inl, inr, refl, sym, ap, subst, ◌∙◌, Bool, some, List, [], ◌∷◌, ◌++◌, map, String,
  Outcome, ok, err, panic, arith, str_eq, eq_iff, Bool-cases, Option-cases, if◌then◌else◌,
}
use arb_core.Common.Dict.{find}
use arb_core.Decimal.{Decimal}
use arb_core.MarketData.Triangle.{TriView}
use arb_core.Strategy.Config.{StrategyError}
use arb_core.Strategy.Detector.{Opportunity, detect_triangular_opportunities}
use arb_core.Strategy.Planner.{TradePlan}
use arb_core.Strategy.Engine.{StrategyEngine, ExecutionReport, CancelRequest, send_cancel}
use arb_core.Strategy.Engine.Monitor.{
  handle_exec_report, scan_timeouts, cancel_plan, cancel_plans, to_cancel,
}
use arb_core.Strategy.Engine.Reports.{late_report, handle_exec_report_lem}
use arb_core.Strategy.Engine.Others.{scan_timeouts-Keeps, handle_exec_report-Keeps}
use arb_core.System.State.{System}
use arb_core.System.Actions.{
  next_view, on_detected, pass_plan, spawn, spawned, cancelled_system, pass_report, monitor,
  pass_cancel, cancel, new_job,
}
use arb_core.System.Views.{
  keep, View-eq, signal_jobs-tasks, task_of, whole, is_task_for, is_report_for, all_tasks,
  all_reports, view_of,
}
use arb_core.System.Moves.{Moves, stays, expires, handles}

module _ {D F : Type 0} ⦃d : Decimal D⦄ where
  cancel_plans-exec_sent :
      (e : StrategyEngine D F) (ids : List String) → (cancel_plans e ids).exec_sent ≡ e.exec_sent
  unfolding cancel_plans cancel_plan send_cancel
  cancel_plans-exec_sent e [] = refl
  cancel_plans-exec_sent e (id ∷ ids) =
      let ih = cancel_plans-exec_sent (cancel_plan e id) ids in ground arith

  handle_exec_report-exec_sent :
      (e : StrategyEngine D F) (r : ExecutionReport D)
      → (handle_exec_report e r).exec_sent ≡ e.exec_sent
  handle_exec_report-exec_sent e r = elim (Option-cases (find e.inflight r.plan_id)) [
    | inl gone ↦ rw (late_report e r gone) refl
    | inr (p, at) ↦ (handle_exec_report_lem e r p at).not_sent
  ]

  module _ (id : String) where
    -- the tasks after a change of what was sent
    pub sent_same :
        (s : System D F) (e : StrategyEngine D F)
        → e.exec_sent ≡ s.engine.exec_sent
        → keep (is_task_for id) (map task_of s.jobs ++ map whole (s.plans ++ e.exec_sent))
          ≡ keep (is_task_for id) (all_tasks s)
    sent_same s e h =
        ap (λ ps. keep (is_task_for id) (map task_of s.jobs ++ map whole (s.plans ++ ps))) h

    pub tick-Moves :
        (s : System D F) (now : ℕ)
        → Moves F id (view_of id s) (view_of id (record s { engine = scan_timeouts s.engine now }))
    unfolding scan_timeouts
    tick-Moves s now =
        let sent =
          sent_same s (scan_timeouts s.engine now)
            (cancel_plans-exec_sent s.engine (to_cancel s.engine.inflight now)) in
        elim (scan_timeouts-Keeps s.engine now id) [
          | inl same ↦ stays (View-eq sent refl same)
          | inr gone ↦ expires sent refl gone
        ]

    detected-view :
        (s : System D F) (views : List (TriView D))
        (r : Outcome (StrategyError D) (List (Opportunity D)))
        → view_of id (on_detected s views r) ≡ view_of id s
    detected-view s views (ok ops) = refl
    detected-view s views (err e) = refl
    detected-view s views panic = refl

    pub view-Moves :
        (s s' : System D F) (ops : List (Opportunity D)) (views : List (TriView D))
        → next_view s ops views ≡ some s'
        → Moves F id (view_of id s) (view_of id s')
    view-Moves s s' [] [] h = cc
    view-Moves s s' (op ∷ ops) [] h = cc
    view-Moves s s' (op ∷ ops) (view ∷ views) h = cc
    view-Moves s s' [] (view ∷ views) h = elim (Bool-cases s.detecting) [
      | inl alive ↦
          let found =
            detect_triangular_opportunities view s.engine.cfg.fee_map
              s.engine.cfg.limits.min_profit_abs in
          let same : s' ≡ on_detected s views found = ground arith in
          stays (ap (view_of id) same ∙ detected-view s views found)
      | inr dead ↦ absurd (ground arith)
    ]

    pub plan-Moves :
        (s s' : System D F) (sent : List (TradePlan D))
        → s.engine.exec_sent ≡ sent
        → pass_plan s sent ≡ some s'
        → Moves F id (view_of id s) (view_of id s')
    plan-Moves s s' [] e h = cc
    plan-Moves s s' (plan ∷ rest) e h =
        let e' = record s.engine { exec_sent = rest } in
        let after : System D F = record s { engine = e'; plans = s.plans ++ (plan ∷ []) } in
        let same : s' ≡ after = ground arith in
        let moved : after.plans ++ rest ≡ s.plans ++ s.engine.exec_sent =
          append_assoc s.plans (plan ∷ []) rest ∙ ap (λ ps. s.plans ++ ps) (sym e) in
        let tasks = ap (λ ps. keep (is_task_for id) (map task_of s.jobs ++ map whole ps)) moved in
        stays (ap (view_of id) same ∙ View-eq tasks refl refl)

    pub spawn-Moves :
        (s s' : System D F) (plans : List (TradePlan D))
        → s.plans ≡ plans
        → spawn s plans ≡ some s'
        → Moves F id (view_of id s) (view_of id s')
    spawn-Moves s s' [] e h = cc
    spawn-Moves s s' (plan ∷ rest) e h =
        let job = new_job s.next_worker plan in
        let same : s' ≡ spawned s plan rest = cc in
        let moved : map task_of (s.jobs ++ (job ∷ [])) ++ map whole (rest ++ s.engine.exec_sent)
            ≡ map task_of s.jobs ++ map whole (s.plans ++ s.engine.exec_sent) =
          rw (map-append task_of s.jobs (job ∷ []), e)
            (append_assoc (map task_of s.jobs) (whole plan ∷ []) _) in
        stays (ap (view_of id) same ∙ View-eq (ap (keep (is_task_for id)) moved) refl refl)

    pub report-Moves :
        (s s' : System D F) (rs : List (ExecutionReport D))
        → s.responses ≡ rs
        → pass_report s rs ≡ some s'
        → Moves F id (view_of id s) (view_of id s')
    report-Moves s s' [] e h = cc
    report-Moves s s' (r ∷ rs) e h =
        let after : System D F = record s { responses = rs; reports = s.reports ++ (r ∷ []) } in
        let same : s' ≡ after = cc in
        let moved : after.reports ++ rs ≡ all_reports s =
          append_assoc s.reports (r ∷ []) rs ∙ ap (λ q. s.reports ++ q) (sym e) in
        stays (ap (view_of id) same ∙ View-eq refl (ap (keep (is_report_for id)) moved) refl)

    pub monitor-Moves :
        (s s' : System D F) (rs : List (ExecutionReport D))
        → s.reports ≡ rs
        → monitor s rs ≡ some s'
        → Moves F id (view_of id s) (view_of id s')
    monitor-Moves s s' [] e h = cc
    monitor-Moves s s' (r ∷ rs) e h =
        let e' = handle_exec_report s.engine r in
        let after : System D F = record s { engine = e'; reports = rs } in
        let same : s' ≡ after = cc in
        let sent = sent_same s e' (handle_exec_report-exec_sent s.engine r) in
        let left = keep (is_report_for id) (rs ++ s.responses) in
        let head : (view_of id s).reports ≡ (if str_eq id r.plan_id then r ∷ left else left) =
          ap (λ q. keep (is_report_for id) (q ++ s.responses)) e in
        subst (λ q. Moves F id (view_of id s) (view_of id q)) (sym same)
          (elim (Bool-cases (str_eq id r.plan_id)) [
            | inl own ↦
                handles s.engine r left (head ∙ ap (λ (b : Bool). if b then r ∷ left else left) own)
                  refl sent refl refl
            | inr alien ↦
                let skipped = head ∙ ap (λ (b : Bool). if b then r ∷ left else left) alien in
                elim (handle_exec_report-Keeps s.engine r id
                  (λ q. cc (sym alien ∙ (eq_iff id r.plan_id).1 q))) [
                    | inl kept ↦ stays (View-eq sent (sym skipped) kept)
                    | inr gone ↦ expires sent (sym skipped) gone
                  ]
          ])

    pub pass_cancel-Moves :
        (s s' : System D F) (cs : List CancelRequest)
        → pass_cancel s cs ≡ some s'
        → Moves F id (view_of id s) (view_of id s')
    pass_cancel-Moves s s' [] h = cc
    pass_cancel-Moves s s' (c ∷ cs) h =
        let after : System D F = record s {
          engine = record s.engine { cancel_sent = cs };
          cancels = s.cancels ++ (c ∷ []);
        } in
        let same : s' ≡ after = ground arith in stays (ap (view_of id) same)

    pub cancel-Moves :
        (s s' : System D F) (cs : List CancelRequest)
        → cancel s cs ≡ some s'
        → Moves F id (view_of id s) (view_of id s')
    cancel-Moves s s' [] h = cc
    cancel-Moves s s' (c ∷ cs) h =
        let to = find s.mock.cancel_map c.plan_id in
        let same : s' ≡ cancelled_system s c cs = cc in
        stays (
          ap (view_of id) same
          ∙ View-eq
              (ap (λ ts. keep (is_task_for id) (ts ++ map whole (s.plans ++ s.engine.exec_sent)))
                (signal_jobs-tasks to s.jobs))
              refl refl)
