-- ===== src/System/Chances.antt =====
-- What an opportunity does to what the system holds of one plan.
use arb_core.Common.{
  ℕ, ◌≡◌, ◌≢◌, ◌⊎◌, inl, inr, refl, sym, ap, ◌∙◌, Bool, true, false, List, [], ◌∷◌, ◌++◌, map,
  String, arith, length, eq_iff, Bool-cases,
}
use mathlib.Core.List.{append_assoc, append-nil, map-append}
use arb_core.Decimal.{Decimal}
use arb_core.Strategy.Detector.{Opportunity}
use arb_core.Strategy.Planner.{TradePlan}
use arb_core.Strategy.Plans.Places.{build_trade_plan-id}
use arb_core.Strategy.Engine.{StrategyEngine}
use arb_core.Strategy.Engine.Detector.{
  Verdict, refused, crashed, accepted, vet, register, submit, handle_opportunity,
}
use arb_core.Strategy.Engine.Sending.{vet-accepted}
use arb_core.Strategy.Engine.Others.{handle_opportunity-find}
use arb_core.System.State.{System}
use arb_core.System.Actions.{after_chance}
use arb_core.System.Views.{
  keep, keep-append, View-eq, task_of, whole, is_task_for, all_tasks, view_of,
}
use arb_core.System.Moves.{Moves, stays}

module _ {D F : Type 0} ⦃d : Decimal D⦄ where
  -- An opportunity sends nothing, or one plan of its identity.
  handle_opportunity-exec_sent :
      (e : StrategyEngine D F) (op : Opportunity D) (id : String) (now : ℕ)
      → let e' = (handle_opportunity e op id now).0 in
        (e'.exec_sent ≡ e.exec_sent)
        ⊎ ((plan : TradePlan D) × (plan.id ≡ id) × (e'.exec_sent ≡ e.exec_sent ++ (plan ∷ [])))
  unfolding handle_opportunity submit register
  handle_opportunity-exec_sent e op id now = go (vet e.cfg (length e.inflight) op id now) refl
    where
      go :
          (v : Verdict D)
          → vet e.cfg (length e.inflight) op id now ≡ v
          → let e' = (handle_opportunity e op id now).0 in
            (e'.exec_sent ≡ e.exec_sent)
            ⊎ ((plan : TradePlan D) × (plan.id ≡ id) × (e'.exec_sent ≡ e.exec_sent ++ (plan ∷ [])))
      go refused f = rw (f, handle_opportunity) (inl refl)
      go crashed f = rw (f, handle_opportunity) (inl refl)
      go (accepted plan) f =
          let (room, checks, built) = vet-accepted e.cfg (length e.inflight) op id now plan f in
          let named = build_trade_plan-id e.cfg op id now plan built in
          rw (f, handle_opportunity)
            (elim (Bool-cases e.exec_open) [
              | inl open_ ↦ inr (plan, named, ground arith)
              | inr shut ↦ inl (ground arith)
            ])

  -- the detector's task dies before it changes anything
  pub handle_opportunity-crashed :
      (e e' : StrategyEngine D F) (op : Opportunity D) (id : String) (now : ℕ)
      → handle_opportunity e op id now ≡ (e', false)
      → e' ≡ e
  unfolding handle_opportunity
  handle_opportunity-crashed e e' op id now h = ground arith

  module _ (id : String) where
    pub chance-view :
        (s : System D F) (ops : List (Opportunity D)) (r : StrategyEngine D F × Bool)
        → view_of id (after_chance s ops r) ≡ view_of id (record s { engine = r.0 })
    chance-view s ops (e, true) = refl
    chance-view s ops (e, false) = refl

    -- the tasks with one plan more
    pub sent_more :
        (s : System D F) (e : StrategyEngine D F) (plan : TradePlan D)
        → e.exec_sent ≡ s.engine.exec_sent ++ (plan ∷ [])
        → keep (is_task_for id) (all_tasks (record s { engine = e }))
          ≡ keep (is_task_for id) (all_tasks s) ++ keep (is_task_for id) (whole plan ∷ [])
    sent_more s e plan h =
        let more : all_tasks (record s { engine = e }) ≡ all_tasks s ++ (whole plan ∷ []) =
          rw
            (
              h,
              ← append_assoc s.plans s.engine.exec_sent (plan ∷ []),
              map-append whole (s.plans ++ s.engine.exec_sent) (plan ∷ []),
            )
            (sym (
              append_assoc (map task_of s.jobs) (map whole (s.plans ++ s.engine.exec_sent))
                (whole plan ∷ []))) in
        rw (more, keep-append (is_task_for id) (all_tasks s) (whole plan ∷ [])) refl

    -- an opportunity with another identity
    pub other_chance-Moves :
        (s : System D F) (op : Opportunity D) (ops : List (Opportunity D)) (minted : String)
        (now : ℕ)
        → minted ≢ id
        → Moves F id
            (view_of id s)
            (view_of id (after_chance s ops (handle_opportunity s.engine op minted now)))
    other_chance-Moves s op ops minted now h =
        let r = handle_opportunity s.engine op minted now in
        let found = handle_opportunity-find s.engine op minted now id h in
        stays (
          chance-view s ops r
          ∙ View-eq
              (elim (handle_opportunity-exec_sent s.engine op minted now) [
                | inl same ↦
                    ap
                      (λ ps.
                        keep (is_task_for id) (map task_of s.jobs ++ map whole (s.plans ++ ps)))
                      same
                | inr (plan, named, more) ↦
                    let alien = eq_iff id plan.id in
                    sent_more s r.0 plan more
                    ∙ ground (arith, append-nil (keep (is_task_for id) (all_tasks s)))
              ])
              refl found)
