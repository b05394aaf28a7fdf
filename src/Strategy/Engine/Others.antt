-- ===== src/Strategy/Engine/Others.antt =====
-- What the turns of the engine's tasks do to the entry of a plan that they are not about.
use arb_core.Common.{
  ℕ, ◌+◌, ◌≡◌, ◌≢◌, ◌⊎◌, inl, inr, refl, sym, ◌∙◌, Bool, false, none, List, [], ◌∷◌, String,
  Outcome, ok, err, panic, arith, length, if-elim, eq_iff, Bool-cases, Option-cases,
}
use arb_core.Common.Dict.{find, put, find-put, find-delete}
use arb_core.Decimal.{Decimal}
use arb_core.MarketData.Triangle.{TriView}
use arb_core.Strategy.Config.{StrategyError}
use arb_core.Strategy.Detector.{Opportunity, detect_triangular_opportunities}
use arb_core.Strategy.Planner.{TradePlan}
use arb_core.Strategy.Plans.Places.{build_trade_plan-id}
use arb_core.Strategy.Engine.{StrategyEngine, ExecutionReport, count_seen}
use arb_core.Strategy.Engine.Detector.{
  Verdict, refused, crashed, accepted, vet, register, submit, handle_opportunity,
  handle_opportunities, handle_view, on_opportunities,
}
use arb_core.Strategy.Engine.Monitor.{handle_exec_report, scan_timeouts, to_cancel}
use arb_core.Strategy.Engine.Reports.{late_report, handle_exec_report_lem}
use arb_core.Strategy.Engine.Sending.{vet-accepted, fresh_entry}
use arb_core.Strategy.Engine.Timeouts.{among, find-cancel_plans}

module _ {D F : Type 0} where
  -- The entry of the plan is as it was, or gone.
  abbrev pub Keeps : String → StrategyEngine D F → StrategyEngine D F → Type 0
  Keeps id e e' = (find e'.inflight id ≡ find e.inflight id) ⊎ (find e'.inflight id ≡ none)

module _ {D F : Type 0} ⦃d : Decimal D⦄ where
  pub scan_timeouts-Keeps :
      (e : StrategyEngine D F) (now : ℕ) (id : String) → Keeps id e (scan_timeouts e now)
  unfolding scan_timeouts
  scan_timeouts-Keeps e now id =
      let ids = to_cancel e.inflight now in
      ground (arith, find-cancel_plans e ids id, Bool-cases (among id ids))

  pub handle_exec_report-Keeps :
      (e : StrategyEngine D F) (r : ExecutionReport D) (id : String)
      → id ≢ r.plan_id
      → Keeps id e (handle_exec_report e r)
  handle_exec_report-Keeps e r id h = elim (Option-cases (find e.inflight r.plan_id)) [
    | inl gone ↦ inl (rw (late_report e r gone) refl)
    | inr (p, at) ↦ inl ((handle_exec_report_lem e r p at).others id h)
  ]

  sent-find :
      (e : StrategyEngine D F) (plan : TradePlan D) (now : ℕ) (id : String)
      → id ≢ plan.id
      → find (submit (register e plan now) plan).inflight id ≡ find e.inflight id
  unfolding submit register
  sent-find e plan now id h = ground (
    arith,
    find-put e.inflight plan.id id (fresh_entry e plan now),
    find-delete (put e.inflight plan.id (fresh_entry e plan now)) plan.id id,
    eq_iff id plan.id,
  )

  pub handle_opportunity-find :
      (e : StrategyEngine D F) (op : Opportunity D) (minted : String) (now : ℕ) (id : String)
      → minted ≢ id
      → find (handle_opportunity e op minted now).0.inflight id ≡ find e.inflight id
  unfolding handle_opportunity
  handle_opportunity-find e op minted now id h =
      go (vet e.cfg (length e.inflight) op minted now) refl
    where
      go :
          (v : Verdict D)
          → vet e.cfg (length e.inflight) op minted now ≡ v
          → find (handle_opportunity e op minted now).0.inflight id ≡ find e.inflight id
      go refused f = rw (f, handle_opportunity) refl
      go crashed f = rw (f, handle_opportunity) refl
      go (accepted plan) f =
          let (room, checks, built) = vet-accepted e.cfg (length e.inflight) op minted now plan f in
          let named = build_trade_plan-id e.cfg op minted now plan built in
          rw (f, handle_opportunity) (sent-find e plan now id (λ q. h (sym named ∙ sym q)))

  handle_opportunities-find :
      (e : StrategyEngine D F) (ops : List (Opportunity D)) (i : ℕ) (env : ℕ → String × ℕ)
      (id : String)
      → ((j : ℕ) → (env j).0 ≢ id)
      → find (handle_opportunities e ops i env).0.inflight id ≡ find e.inflight id
  unfolding handle_opportunities
  handle_opportunities-find e [] i env id h = refl
  handle_opportunities-find e (op ∷ ops) i env id h =
      let (e', alive) = handle_opportunity e op (env i).0 (env i).1 in
      let first = handle_opportunity-find e op (env i).0 (env i).1 id (h i) in
      let rest = handle_opportunities e' ops (i + 1) env in
      if-elim (λ (r : StrategyEngine D F × Bool). find r.0.inflight id ≡ find e.inflight id) alive
        rest (e', false) (λ q. handle_opportunities-find e' ops (i + 1) env id h ∙ first)
        (λ q. first)

  pub handle_view-find :
      (e : StrategyEngine D F) (tv : TriView D) (env : ℕ → String × ℕ) (id : String)
      → ((j : ℕ) → (env j).0 ≢ id)
      → find (handle_view e tv 0 env).0.inflight id ≡ find e.inflight id
  unfolding handle_view
  handle_view-find e tv env id h =
      go (detect_triangular_opportunities tv e.cfg.fee_map e.cfg.limits.min_profit_abs)
    where
      go :
          (r : Outcome (StrategyError D) (List (Opportunity D)))
          → find (on_opportunities (count_seen e) 0 env r).0.inflight id ≡ find e.inflight id
      go (ok ops) = handle_opportunities-find (count_seen e) ops 0 env id h
      go (err b) = refl
      go panic = refl
