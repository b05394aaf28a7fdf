-- ===== src/Strategy/Engine/Deadline.antt =====
-- The latest time at which a plan leaves the flight.
use arb_core.Common.{
  ℕ, ◌-◌, ◌%◌, ◌<◌, ◌≡◌, ◌≢◌, ◌⊎◌, inl, inr, refl, sym, ap, ◌∙◌, Bool, true, false, none, some,
  List, [], ◌∷◌, String, arith, u64_mod, str_eq, eq_iff, Bool-cases,
}
use arb_core.Common.Dict.{Dict, find}
use arb_core.Decimal.{Decimal}
use arb_core.Strategy.Planner.{TradePlan}
use arb_core.Strategy.Detector.{Opportunity}
use arb_core.Strategy.Engine.{StrategyEngine, InFlightPlan, ExecutionReport}
use arb_core.Strategy.Engine.Detector.{handle_view}
use arb_core.Strategy.Engine.Monitor.{
  handle_exec_report, filled_by, ends_plan, to_cancel, scan_timeouts, age,
}
use arb_core.Strategy.Engine.Reports.{Ends, handle_exec_report_lem, ends_plan_iff, late_report}
use arb_core.Strategy.Engine.Sending.{Sent, fresh_entry}
use arb_core.Strategy.Engine.Timeouts.{among, find-cancel_plans}
use arb_core.Strategy.Engine.Loops.{
  Turn, view, incoming, tick, views_closed, reports_closed, start, take_turn, run_tasks,
}
use arb_core.Strategy.Engine.Others.{
  Keeps, scan_timeouts-Keeps, handle_exec_report-Keeps, handle_view-find,
}

module _ {D : Type 0} where
  -- The identity is not given again, and the monitor's channel stays open.
  abbrev pub Undisturbed : String → List (Turn D) → Type 0
  Undisturbed id [] = Unit
  Undisturbed id (view tv env ∷ turns) = ((j : ℕ) → (env j).0 ≢ id) × Undisturbed id turns
  Undisturbed id (reports_closed ∷ turns) = ⊥
  Undisturbed id (_ ∷ turns) = Undisturbed id turns

  -- Among the turns is a scan at a time when a plan submitted at `since` is over its timeout.
  abbrev pub TimesOut : (since timeout_ms : ℕ) → List (Turn D) → Type 0
  TimesOut since timeout_ms [] = ⊥
  TimesOut since timeout_ms (tick now ∷ turns) =
      (timeout_ms < (now - since) % u64_mod) ⊎ TimesOut since timeout_ms turns
  TimesOut since timeout_ms (_ ∷ turns) = TimesOut since timeout_ms turns

  among-due :
      (m : Dict (InFlightPlan D)) (now : ℕ) (id : String) (p : InFlightPlan D)
      → find m id ≡ some p
      → p.timeout_ms < age now p
      → among id (to_cancel m now) ≡ true
  unfolding to_cancel find
  among-due [] now id p at late = absurd (ground arith)
  among-due ((key, q) ∷ rest) now id p at late = elim (Bool-cases (str_eq id key)) [
    | inl mine ↦ let same : q ≡ p = ground arith in ground (arith, mine, same)
    | inr alien ↦ let ih = among-due rest now id p (ground arith) late in ground (arith, ih)
  ]

module _ {D F : Type 0} ⦃d : Decimal D⦄ (id : String) where
  -- The plan is gone, or has these times.
  abbrev Expires : (since timeout_ms : ℕ) → StrategyEngine D F → Type 0
  Expires since timeout_ms e =
      (find e.inflight id ≡ none)
      ⊎ ((p : InFlightPlan D) × (find e.inflight id ≡ some p)
          × (p.submitted_at ≡ since)
          × (p.timeout_ms ≡ timeout_ms))

  Expires-Keeps :
      (since timeout_ms : ℕ) (e e' : StrategyEngine D F)
      → Keeps id e e'
      → Expires since timeout_ms e
      → Expires since timeout_ms e'
  Expires-Keeps since timeout_ms e e' (inr gone) x = inl gone
  Expires-Keeps since timeout_ms e e' (inl same) (inl gone) = inl (same ∙ gone)
  Expires-Keeps since timeout_ms e e' (inl same) (inr (p, at, s, t)) = inr (p, same ∙ at, s, t)

  own_report-Expires :
      (since timeout_ms : ℕ) (e : StrategyEngine D F) (r : ExecutionReport D)
      → r.plan_id ≡ id
      → Expires since timeout_ms e
      → Expires since timeout_ms (handle_exec_report e r)
  own_report-Expires since timeout_ms e r named (inl gone) =
      let gone' : find e.inflight r.plan_id ≡ none = ap (find e.inflight) named ∙ gone in
      inl (rw (late_report e r gone') gone)
  own_report-Expires since timeout_ms e r named (inr (p, at, s, t)) =
      let rep = handle_exec_report_lem e r p (ap (find e.inflight) named ∙ at) in
      let found = ap (find (handle_exec_report e r).inflight) (sym named) in
      elim (Bool-cases (ends_plan r.status (filled_by p r))) [
        | inl ends ↦ inl (found ∙ (rep.ended ((ends_plan_iff r.status (filled_by p r)).0 ends)).0)
        | inr stays ↦
            let not_ends : ¬ Ends r.status (filled_by p r) =
              λ h. cc (sym stays ∙ (ends_plan_iff r.status (filled_by p r)).1 h) in
            inr (filled_by p r, found ∙ (rep.kept not_ends).0, s, t)
      ]

  report-Expires :
      (since timeout_ms : ℕ) (e : StrategyEngine D F) (r : ExecutionReport D)
      → Expires since timeout_ms e
      → Expires since timeout_ms (handle_exec_report e r)
  report-Expires since timeout_ms e r x = elim (Bool-cases (str_eq id r.plan_id)) [
    | inl mine ↦ own_report-Expires since timeout_ms e r (sym ((eq_iff id r.plan_id).0 mine)) x
    | inr alien ↦
        Expires-Keeps since timeout_ms e (handle_exec_report e r)
          (handle_exec_report-Keeps e r id (λ q. cc (sym alien ∙ (eq_iff id r.plan_id).1 q))) x
  ]

  scan_late :
      (since timeout_ms now : ℕ) (e : StrategyEngine D F)
      → timeout_ms < (now - since) % u64_mod
      → Expires since timeout_ms e
      → find (scan_timeouts e now).inflight id ≡ none
  unfolding scan_timeouts
  scan_late since timeout_ms now e late (inl gone) =
      find-cancel_plans e (to_cancel e.inflight now) id ∙ ground arith
  scan_late since timeout_ms now e late (inr (p, at, s, t)) =
      let due = among-due e.inflight now id p at (ground arith) in
      find-cancel_plans e (to_cancel e.inflight now) id ∙ ground arith

  report-gone :
      (e : StrategyEngine D F) (r : ExecutionReport D)
      → find e.inflight id ≡ none
      → find (handle_exec_report e r).inflight id ≡ none
  report-gone e r gone = elim (Bool-cases (str_eq id r.plan_id)) [
    | inl mine ↦
        let same =
          late_report e r (ap (find e.inflight) (sym ((eq_iff id r.plan_id).0 mine)) ∙ gone) in
        rw same gone
    | inr alien ↦
        elim (handle_exec_report-Keeps e r id (λ q. cc (sym alien ∙ (eq_iff id r.plan_id).1 q))) [
          | inl same ↦ same ∙ gone
          | inr none_now ↦ none_now
        ]
  ]

  -- the engine after these turns, with the monitor running
  abbrev run_from : StrategyEngine D F → Bool → List (Turn D) → StrategyEngine D F
  run_from e detecting turns =
      (run_tasks (record { engine = e; detecting = detecting; monitoring = true }) turns).engine

  run_from-gone :
      (e : StrategyEngine D F) (detecting : Bool) (turns : List (Turn D))
      → Undisturbed id turns
      → find e.inflight id ≡ none
      → find (run_from e detecting turns).inflight id ≡ none
  unfolding run_tasks take_turn
  run_from-gone e detecting [] u gone = gone
  run_from-gone e true (view tv env ∷ turns) (fresh, u) gone =
      run_from-gone _ _ turns u (handle_view-find e tv env id fresh ∙ gone)
  run_from-gone e false (view tv env ∷ turns) (fresh, u) gone = run_from-gone e false turns u gone
  run_from-gone e detecting (incoming r ∷ turns) u gone =
      run_from-gone (handle_exec_report e r) detecting turns u (report-gone e r gone)
  run_from-gone e detecting (tick now ∷ turns) u gone =
      run_from-gone (scan_timeouts e now) detecting turns u
        (elim (scan_timeouts-Keeps e now id) [ inl same ↦ same ∙ gone | inr none_now ↦ none_now ])
  run_from-gone e detecting (views_closed ∷ turns) u gone = run_from-gone e false turns u gone
  run_from-gone e detecting (reports_closed ∷ turns) u gone = absurd u

  run_from-late :
      (since timeout_ms : ℕ) (e : StrategyEngine D F) (detecting : Bool) (turns : List (Turn D))
      → Undisturbed id turns
      → TimesOut since timeout_ms turns
      → Expires since timeout_ms e
      → find (run_from e detecting turns).inflight id ≡ none
  unfolding run_tasks take_turn
  run_from-late since timeout_ms e detecting [] u late x = absurd late
  run_from-late since timeout_ms e true (view tv env ∷ turns) (fresh, u) late x =
      let e' = (handle_view e tv 0 env).0 in
      run_from-late since timeout_ms e' (handle_view e tv 0 env).1 turns u late
        (Expires-Keeps since timeout_ms e e' (inl (handle_view-find e tv env id fresh)) x)
  run_from-late since timeout_ms e false (view tv env ∷ turns) (fresh, u) late x =
      run_from-late since timeout_ms e false turns u late x
  run_from-late since timeout_ms e detecting (incoming r ∷ turns) u late x =
      run_from-late since timeout_ms (handle_exec_report e r) detecting turns u late
        (report-Expires since timeout_ms e r x)
  run_from-late since timeout_ms e detecting (tick now ∷ turns) u (inl over) x =
      run_from-gone (scan_timeouts e now) detecting turns u
        (scan_late since timeout_ms now e over x)
  run_from-late since timeout_ms e detecting (tick now ∷ turns) u (inr later) x =
      run_from-late since timeout_ms (scan_timeouts e now) detecting turns u later
        (Expires-Keeps since timeout_ms e (scan_timeouts e now) (scan_timeouts-Keeps e now id) x)
  run_from-late since timeout_ms e detecting (views_closed ∷ turns) u late x =
      run_from-late since timeout_ms e false turns u late x
  run_from-late since timeout_ms e detecting (reports_closed ∷ turns) u late x = absurd u

module _ {D F : Type 0} ⦃d : Decimal D⦄ where
  -- Whatever the execution reports, or if it reports nothing: a plan that was sent is out of flight
  -- once the monitor has scanned at a time when the plan is over its configured timeout, whatever
  -- turns the two tasks take before and after. Its identity must not be given again, and the
  -- monitor's channel must stay open.
  pub run_tasks-TimesOut :
      (e e' : StrategyEngine D F) (op : Opportunity D) (id : String) (now : ℕ) (plan : TradePlan D)
      (turns : List (Turn D))
      → Sent e op id now e' plan
      → Undisturbed plan.id turns
      → TimesOut now e.cfg.order_timeout_ms turns
      → find (run_tasks (start e') turns).engine.inflight plan.id ≡ none
  unfolding start
  run_tasks-TimesOut e e' op id now plan turns sent u late =
      run_from-late plan.id now e.cfg.order_timeout_ms e' true turns u late
        (inr (fresh_entry e plan now, sent.tracked, refl, refl))
