-- ===== src/Strategy/Engine/Sending.antt =====
-- What the detector makes of the opportunities of a view: the plans it sends and what it counts.
use arb_core.Common.{
  ℕ, ◌+◌, ◌%◌, ◌<◌, ◌≡◌, ◌≢◌, ◌⊎◌, refl, Bool, true, false, none, some, List, [], ◌∷◌, ◌++◌, String,
  Outcome, ok, err, panic, arith, length, inl, inr, leb, Bool-cases, bump, u64_mod, eq_iff, eq_refl,
  if◌then◌else◌,
}
use arb_core.Common.Dict.{find, put, find-put, find-delete}
use arb_core.Decimal.{Decimal, ◌≼◌}
use arb_core.Strategy.Config.{StrategyConfig, StrategyError}
use arb_core.Strategy.Detector.{Opportunity}
use arb_core.Strategy.Planner.{TradePlan, build_trade_plan}
use arb_core.Strategy.Engine.{StrategyEngine, StrategyMetrics, InFlightPlan, count_rejected}
use arb_core.Strategy.Engine.Detector.{
  Verdict, refused, crashed, accepted, vet, register, submit, no_fills, handle_opportunity,
  handle_opportunities, pre_trade_checks, verdict_of, after_checks,
}

-- the opportunities that were sent as plans or rejected
abbrev pub handled : StrategyMetrics → ℕ
handled m = m.plans_submitted + m.plans_rejected

module _ {D : Type 0} where
  accepted-elim :
      (full : Bool) (checks : Outcome (StrategyError D) Bool)
      (t : Outcome (StrategyError D) (TradePlan D)) (plan : TradePlan D)
      → (if full then refused else after_checks checks (verdict_of t)) ≡ accepted plan
      → (full ≡ false) × (checks ≡ ok true) × (t ≡ ok plan)
  accepted-elim true checks t plan h = absurd (ground arith)
  accepted-elim false (ok true) (ok p) plan h = ground arith
  accepted-elim false (ok true) (err b) plan h = absurd (ground arith)
  accepted-elim false (ok true) panic plan h = absurd (ground arith)
  accepted-elim false (ok false) t plan h = absurd (ground arith)
  accepted-elim false (err b) t plan h = absurd (ground arith)
  accepted-elim false panic t plan h = absurd (ground arith)

module _ {D F : Type 0} ⦃d : Decimal D⦄ where
  pub vet-accepted :
      (cfg : StrategyConfig D F) (n : ℕ) (op : Opportunity D) (id : String) (now : ℕ)
      (plan : TradePlan D)
      → vet cfg n op id now ≡ accepted plan
      → (n < cfg.max_concurrent_plans)
        × (pre_trade_checks cfg op ≡ ok true)
        × (build_trade_plan op cfg id now ≡ ok plan)
  unfolding vet
  vet-accepted cfg n op id now plan h =
      let (room, checks, built) =
        accepted-elim (leb cfg.max_concurrent_plans n) (pre_trade_checks cfg op)
          (build_trade_plan op cfg id now) plan h in
      (ground arith, checks, built)

  pre_trade_checks-profit :
      (cfg : StrategyConfig D F) (op : Opportunity D)
      → pre_trade_checks cfg op ≡ ok true
      → ¬ (op.estimated_profit ≼ cfg.limits.min_profit_abs)
  unfolding pre_trade_checks
  pre_trade_checks-profit cfg op h = ground arith

  handle_opportunity-handled :
      (e : StrategyEngine D F) (op : Opportunity D) (id : String) (now : ℕ)
      → (handle_opportunity e op id now).1 ≡ true
      → handled (handle_opportunity e op id now).0.metrics % u64_mod
        ≡ (handled e.metrics + 1) % u64_mod
  unfolding handle_opportunity submit register
  handle_opportunity-handled e op id now h = go (vet e.cfg (length e.inflight) op id now) refl
    where
      go :
          (v : Verdict D)
          → vet e.cfg (length e.inflight) op id now ≡ v
          → handled (handle_opportunity e op id now).0.metrics % u64_mod
            ≡ (handled e.metrics + 1) % u64_mod
      go refused f = rw (f, handle_opportunity) (ground arith)
      go crashed f = absurd (ground arith)
      go (accepted plan) f = rw (f, handle_opportunity) (ground arith)

  -- If the detector does not panic, each opportunity of a view is counted once, as submitted or as
  -- rejected; the counters wrap at 2 ^ 64.
  pub handle_opportunities-handled :
      (e : StrategyEngine D F) (ops : List (Opportunity D)) (i : ℕ) (env : ℕ → String × ℕ)
      → (handle_opportunities e ops i env).1 ≡ true
      → handled (handle_opportunities e ops i env).0.metrics % u64_mod
        ≡ (handled e.metrics + length ops) % u64_mod
  unfolding handle_opportunities
  handle_opportunities-handled e [] i env h = ground arith
  handle_opportunities-handled e (op ∷ ops) i env h =
      let (e', alive) = handle_opportunity e op (env i).0 (env i).1 in
      let step = handle_opportunity-handled e op (env i).0 (env i).1 in
      let rest = handle_opportunities-handled e' ops (i + 1) env in ground (arith, step, rest)

  -- what a new plan is put in flight with
  abbrev pub fresh_entry : StrategyEngine D F → TradePlan D → ℕ → InFlightPlan D
  fresh_entry e plan now = record {
    plan = plan;
    filled = no_fills plan.legs;
    submitted_at = now;
    timeout_ms = e.cfg.order_timeout_ms;
  }

  -- What the engine looks like after it sent `plan` for an opportunity.
  pub record Sent (e : StrategyEngine D F) (op : Opportunity D) (id : String) (now : ℕ)
      (e' : StrategyEngine D F) (plan : TradePlan D) : Type 0 where
    pub built : build_trade_plan op e.cfg id now ≡ ok plan
    pub worth : ¬ (op.estimated_profit ≼ e.cfg.limits.min_profit_abs)
    pub room : length e.inflight < e.cfg.max_concurrent_plans
    pub sent : e'.exec_sent ≡ e.exec_sent ++ (plan ∷ [])
    pub tracked : find e'.inflight plan.id ≡ some (fresh_entry e plan now)
    pub others : (other : String) → other ≢ plan.id → find e'.inflight other ≡ find e.inflight other

  -- What it looks like after an opportunity for which it sent nothing.
  pub record Dropped (e e' : StrategyEngine D F) : Type 0 where
    pub not_sent : e'.exec_sent ≡ e.exec_sent
    pub rejected : e'.metrics.plans_rejected ≡ bump e.metrics.plans_rejected
    pub no_new : (key : String) → find e.inflight key ≡ none → find e'.inflight key ≡ none

  pub accepted-Sent :
      (e : StrategyEngine D F) (op : Opportunity D) (id : String) (now : ℕ) (plan : TradePlan D)
      → vet e.cfg (length e.inflight) op id now ≡ accepted plan
      → e.exec_open ≡ true
      → Sent e op id now (submit (register e plan now) plan) plan
  unfolding submit register
  accepted-Sent e op id now plan h o =
      let (room, checks, built) = vet-accepted e.cfg (length e.inflight) op id now plan h in
      record {
        built = built;
        worth = pre_trade_checks-profit e.cfg op checks;
        room = room;
        sent = ground arith;
        tracked =
            ground (
              arith,
              find-put e.inflight plan.id plan.id (fresh_entry e plan now),
              eq_refl plan.id,
            );
        others = λ other n. ground (
          arith,
          find-put e.inflight plan.id other (fresh_entry e plan now),
          eq_iff other plan.id,
        );
      }

  closed-Dropped :
      (e : StrategyEngine D F) (plan : TradePlan D) (now : ℕ)
      → e.exec_open ≡ false
      → Dropped e (submit (register e plan now) plan)
  unfolding submit register
  closed-Dropped e plan now o = record {
    not_sent = ground arith;
    rejected = ground arith;
    no_new = λ key gone. ground (
      arith,
      find-put e.inflight plan.id key (fresh_entry e plan now),
      find-delete (put e.inflight plan.id (fresh_entry e plan now)) plan.id key,
    );
  }

  -- An opportunity that does not panic the task ends in one of two ways. A plan for it is sent: then
  -- it is what the planner builds, its profit is above the configured minimum, there was room for it,
  -- it is in flight with no fill, the current time and the configured timeout, and the others in
  -- flight are untouched. Or nothing is sent, the rejected counter goes up by one and no plan is
  -- newly in flight.
  pub handle_opportunity-Sent :
      (e e' : StrategyEngine D F) (op : Opportunity D) (id : String) (now : ℕ)
      → handle_opportunity e op id now ≡ (e', true)
      → Dropped e e' ⊎ ((plan : TradePlan D) × Sent e op id now e' plan)
  unfolding handle_opportunity
  handle_opportunity-Sent e e' op id now h = go (vet e.cfg (length e.inflight) op id now) refl
    where
      go :
          (v : Verdict D)
          → vet e.cfg (length e.inflight) op id now ≡ v
          → Dropped e e' ⊎ ((plan : TradePlan D) × Sent e op id now e' plan)
      go refused f =
          let same : e' ≡ count_rejected e = ground arith in
          rw same (inl (record { not_sent = refl; rejected = refl; no_new = λ key g. g }))
      go crashed f = absurd (ground arith)
      go (accepted plan) f =
          let same : e' ≡ submit (register e plan now) plan = ground arith in
          rw same (elim (Bool-cases e.exec_open) [
            | inl o ↦ inr (plan, accepted-Sent e op id now plan f o)
            | inr o ↦ inl (closed-Dropped e plan now o)
          ])
