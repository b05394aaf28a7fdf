-- ===== src/System/Working.antt =====
-- What a worker's next leg, or its end, does to what the system holds of one plan.
use arb_core.Common.{
  ℕ, Bool, suc, ◌≡◌, inl, inr, refl, sym, ap, subst, ◌∙◌, Option, none, some, List, [], ◌∷◌, ◌++◌,
  map, String, arith, str_eq, Bool-cases, Option-cases, if◌then◌else◌,
}
use mathlib.Core.List.{append_assoc, append-nil}
use arb_core.Decimal.{Decimal}
use arb_core.Strategy.Planner.{TradePlan}
use arb_core.Strategy.Engine.{ExecutionReport}
use arb_core.Execution.Mock.{run_leg}
use arb_core.Execution.Progress.{run_leg-IsOutcome}
use arb_core.System.State.{System, Job}
use arb_core.System.Actions.{
  heard, after_work, worked, worked_system, finished, finished_system, signals_of, after_leg,
}
use arb_core.System.Views.{
  keep, keep-append, keep-middle, View-eq, task_of, whole, is_task_for, is_report_for, all_reports,
  view_of,
}
use arb_core.System.Moves.{Moves, stays, works, panics, finishes}
use arb_core.System.Works.{IsWork, IsFinish, run_leg-none}

module _ {D : Type 0} ⦃d : Decimal D⦄ where
  module _ {F : Type 0} (id : String) where
    -- the tasks around a worker
    around :
        (s : System D F) (before after instead jobs : List (Job D))
        → jobs ≡ before ++ (instead ++ after)
        → keep (is_task_for id) (map task_of jobs ++ map whole (s.plans ++ s.engine.exec_sent))
          ≡ keep (is_task_for id) (map task_of before)
            ++ (keep (is_task_for id) (map task_of instead)
                ++ keep
                    (is_task_for id)
                    (map task_of after ++ map whole (s.plans ++ s.engine.exec_sent)))
    around s before after instead jobs e = rw e (
        keep-middle (is_task_for id) before instead after
          (map whole (s.plans ++ s.engine.exec_sent)))

    pub finish-Moves :
        (s s' : System D F) (r : Option (TradePlan D × List (Job D)))
        → ((plan : TradePlan D) (jobs : List (Job D))
            → r ≡ some (plan, jobs)
            → IsFinish s.jobs jobs)
        → finished s r ≡ some s'
        → Moves F id (view_of id s) (view_of id s')
    finish-Moves s s' none v h = cc
    finish-Moves s s' (some (plan, jobs)) v h =
        let w = v plan jobs refl in
        let same : s' ≡ finished_system s plan jobs = cc in
        let xs = keep (is_task_for id) (map task_of w.before) in
        let ys =
          keep (is_task_for id)
            (map task_of w.after ++ map whole (s.plans ++ s.engine.exec_sent)) in
        let were = around s w.before w.after (w.job ∷ []) s.jobs w.were in
        let are = around s w.before w.after [] jobs w.are in
        subst (λ q. Moves F id (view_of id s) (view_of id q)) (sym same)
          (elim (Bool-cases (str_eq id w.job.plan.id)) [
            | inl own ↦ finishes xs ys (task_of w.job) (were ∙ ground arith) w.at_end are refl refl
            | inr alien ↦ stays (View-eq (are ∙ ground arith) refl refl)
          ])

    -- a worker reports a leg
    report-Moves :
        (s : System D F) (now : ℕ) (late : Bool) (rs : List (ExecutionReport D))
        (jobs : List (Job D)) (w : IsWork now late s.jobs rs jobs) (r : ExecutionReport D)
        → run_leg (signals_of (heard late w.job.signal)) w.job.plan w.job.place w.leg now ≡ some r
        → Moves F id (view_of id s) (view_of id (worked_system s rs jobs))
    report-Moves s now late rs jobs w r e =
        let out =
          run_leg-IsOutcome (signals_of (heard late w.job.signal)) w.job.plan w.job.place w.leg now
            r e in
        let j' = record w.job {
          place = suc w.job.place;
          rest = w.legs;
          signal = after_leg late w.job.signal;
        } in
        let o : ◌≡◌ {A = List (ExecutionReport D) × List (Job D)} (r ∷ [], j' ∷ [])
            (rs, w.instead) =
          ap (after_work late w.job w.legs) (sym e) ∙ w.outcome in
        let sent : rs ≡ r ∷ [] =
          ap (λ (x : List (ExecutionReport D) × List (Job D)). x.0) (sym o) in
        let left : w.instead ≡ j' ∷ [] =
          ap (λ (x : List (ExecutionReport D) × List (Job D)). x.1) (sym o) in
        let xs = keep (is_task_for id) (map task_of w.before) in
        let ys =
          keep (is_task_for id)
            (map task_of w.after ++ map whole (s.plans ++ s.engine.exec_sent)) in
        let were = around s w.before w.after (w.job ∷ []) s.jobs w.were in
        let are =
          around s w.before w.after (j' ∷ []) jobs
            (w.are ∙ ap (λ js. w.before ++ (js ++ w.after)) left) in
        let reports : keep (is_report_for id) (s.reports ++ (s.responses ++ rs))
            ≡ keep (is_report_for id) (all_reports s)
              ++ (if str_eq id r.plan_id then r ∷ [] else []) =
          rw
            (
              ← append_assoc s.reports s.responses rs,
              keep-append (is_report_for id) (all_reports s) rs,
              sent,
            )
            refl in
        let named = out.plan_named in
        elim (Bool-cases (str_eq id w.job.plan.id)) [
          | inl own ↦
              works xs ys (task_of w.job) w.leg w.legs r (were ∙ ground arith) w.at_leg out
                (are ∙ ground arith) (reports ∙ ground arith) refl
          | inr alien ↦ stays (
              View-eq (are ∙ ground arith)
                (reports ∙ ground (arith, append-nil (keep (is_report_for id) (all_reports s))))
                refl)
        ]

    -- a worker panics at a leg
    panic-Moves :
        (s : System D F) (now : ℕ) (late : Bool) (rs : List (ExecutionReport D))
        (jobs : List (Job D)) (w : IsWork now late s.jobs rs jobs)
        → run_leg (signals_of (heard late w.job.signal)) w.job.plan w.job.place w.leg now ≡ none
        → Moves F id (view_of id s) (view_of id (worked_system s rs jobs))
    panic-Moves s now late rs jobs w e =
        let o : ◌≡◌ {A = List (ExecutionReport D) × List (Job D)} ([], []) (rs, w.instead) =
          ap (after_work late w.job w.legs) (sym e) ∙ w.outcome in
        let sent : rs ≡ [] = ap (λ (x : List (ExecutionReport D) × List (Job D)). x.0) (sym o) in
        let left : w.instead ≡ [] =
          ap (λ (x : List (ExecutionReport D) × List (Job D)). x.1) (sym o) in
        let passive =
          run_leg-none (signals_of (heard late w.job.signal)) w.job.plan w.job.place w.leg now e in
        let xs = keep (is_task_for id) (map task_of w.before) in
        let ys =
          keep (is_task_for id)
            (map task_of w.after ++ map whole (s.plans ++ s.engine.exec_sent)) in
        let were = around s w.before w.after (w.job ∷ []) s.jobs w.were in
        let are =
          around s w.before w.after [] jobs (w.are ∙ ap (λ js. w.before ++ (js ++ w.after)) left) in
        let reports : keep (is_report_for id) (s.reports ++ (s.responses ++ rs))
            ≡ keep (is_report_for id) (all_reports s) =
          rw (sent, append-nil s.responses) refl in
        elim (Bool-cases (str_eq id w.job.plan.id)) [
          | inl own ↦
              panics xs ys (task_of w.job) w.leg w.legs (were ∙ ground arith) w.at_leg passive are
                reports refl
          | inr alien ↦ stays (View-eq (are ∙ ground arith) reports refl)
        ]

    pub work-Moves :
        (s s' : System D F) (now : ℕ) (late : Bool)
        (r : Option (List (ExecutionReport D) × List (Job D)))
        → ((rs : List (ExecutionReport D)) (jobs : List (Job D))
            → r ≡ some (rs, jobs)
            → IsWork now late s.jobs rs jobs)
        → worked s r ≡ some s'
        → Moves F id (view_of id s) (view_of id s')
    work-Moves s s' now late none v h = cc
    work-Moves s s' now late (some (rs, jobs)) v h =
        let w = v rs jobs refl in
        let same : s' ≡ worked_system s rs jobs = cc in
        subst (λ q. Moves F id (view_of id s) (view_of id q)) (sym same)
          (elim (Option-cases
            (run_leg (signals_of (heard late w.job.signal)) w.job.plan w.job.place w.leg now)) [
              | inl dead ↦ panic-Moves s now late rs jobs w dead
              | inr (r, e) ↦ report-Moves s now late rs jobs w r e
            ])
