-- ===== src/System/Runs.antt =====
-- Runs of the whole system from its start, and what they hold of one plan.
use arb_core.Common.{
  ℕ, ◌≡◌, ◌⊎◌, inl, inr, refl, arith, ap, sym, ◌∙◌, subst, some, List, [], ◌∷◌, String, str_eq,
  eq_iff, Bool-cases, Option-cases, All,
}
use arb_core.Common.Dict.{find}
use arb_core.Decimal.{Decimal, AddsToNil}
use arb_core.Strategy.Config.{StrategyConfig, aggressive}
use arb_core.Strategy.Detector.{Opportunity}
use arb_core.Strategy.Engine.{new_engine, with_storage}
use arb_core.Strategy.Engine.Detector.{handle_opportunity}
use arb_core.System.State.{
  System, Event, view_comes, tick, take_view, forward_plan, start_worker, forward_report,
  handle_report, forward_cancel, take_cancel, work, finish, next_chance, new_system,
}
use arb_core.System.Actions.{fire, take_chance, after_chance, run_system, or_same}
use arb_core.System.Views.{view_of}
use arb_core.System.Moves.{IsAbsent, Moves-IsAbsent}
use arb_core.System.Ready.{HasThreeLegs}
use arb_core.System.Opened.{IsFollowed, Moves-IsFollowed, own_chance-IsFollowed}
use arb_core.System.Fires.{Spares, minted_by, fire-Moves}
use arb_core.System.Keeping.{IsReady, fire-IsReady}

module _ {D : Type 0} where
  -- No two events give out the same identity.
  abbrev pub AreFresh : List (Event D) → Type 0
  AreFresh [] = Unit
  AreFresh (ev ∷ evs) =
      ((id : String) → minted_by ev ≡ some id → All (Spares id) evs) × AreFresh evs

  -- An event gives the identity, or it does not.
  minted-cases :
      (id : String) (ev : Event D) → ((now : ℕ) × (ev ≡ next_chance id now)) ⊎ Spares id ev
  minted-cases id (next_chance k now) = elim (Bool-cases (str_eq k id)) [
    | inl own ↦ inl (now, ap (λ x. next_chance x now) ((eq_iff k id).0 own))
    | inr alien ↦ inr (λ h. let same : k ≡ id = cc in cc (sym alien ∙ (eq_iff k id).1 same))
  ]
  minted-cases id (view_comes view) = inr (λ h. cc)
  minted-cases id (tick now) = inr (λ h. cc)
  minted-cases id take_view = inr (λ h. cc)
  minted-cases id forward_plan = inr (λ h. cc)
  minted-cases id start_worker = inr (λ h. cc)
  minted-cases id forward_report = inr (λ h. cc)
  minted-cases id handle_report = inr (λ h. cc)
  minted-cases id forward_cancel = inr (λ h. cc)
  minted-cases id take_cancel = inr (λ h. cc)
  minted-cases id (work i now late) = inr (λ h. cc)
  minted-cases id (finish i) = inr (λ h. cc)

module _ {D F : Type 0} ⦃d : Decimal D⦄ where
  -- A step that holds of every event that fires holds of the run's step.
  or_same-elim :
      (P : System D F → Type 0) (s : System D F) (ev : Event D)
      → P s
      → ((s' : System D F) → fire s ev ≡ some s' → P s')
      → P (or_same s (fire s ev))
  or_same-elim P s ev p f = elim (Option-cases (fire s ev)) [
    | inl stuck ↦ rw stuck p
    | inr (s', fired) ↦ rw fired (f s' fired)
  ]

  -- a plan that has its identity goes on
  run_system-IsFollowed :
      (id : String) (s : System D F) (evs : List (Event D))
      → AddsToNil D
      → All (Spares id) evs
      → IsFollowed id (view_of id s)
      → IsFollowed id (view_of id (run_system s evs))
  unfolding run_system
  run_system-IsFollowed id s [] adds spares v = v
  run_system-IsFollowed id s (ev ∷ evs) adds (spare, spares) v =
      run_system-IsFollowed id (or_same s (fire s ev)) evs adds spares (
        or_same-elim (λ q. IsFollowed id (view_of id q)) s ev v
          (λ s' h.
            Moves-IsFollowed id (view_of id s) (view_of id s') adds (fire-Moves id s s' ev spare h)
              v))

  own-IsFollowed :
      (cfg : StrategyConfig D F) (id : String) (now : ℕ) (s s' : System D F)
      (ops : List (Opportunity D))
      → cfg.aggression ≡ aggressive
      → s.chances ≡ ops
      → take_chance s ops id now ≡ some s'
      → IsReady cfg s
      → IsAbsent (view_of id s)
      → IsFollowed id (view_of id s')
  own-IsFollowed cfg id now s s' [] taking e h v absent = cc
  own-IsFollowed cfg id now s s' (op ∷ ops) taking e h v absent =
      let same : s' ≡ after_chance s ops (handle_opportunity s.engine op id now) = cc in
      rw same (
        own_chance-IsFollowed s op ops id now
          (ap (λ (c : StrategyConfig D F). c.aggression) v.same_cfg ∙ taking)
          (subst (All HasThreeLegs) e v.three).0 absent)

  step-IsReady :
      (cfg : StrategyConfig D F) (s : System D F) (ev : Event D)
      → IsReady cfg s
      → IsReady cfg (or_same s (fire s ev))
  step-IsReady cfg s ev v = or_same-elim (IsReady cfg) s ev v (λ s' h. fire-IsReady cfg s s' ev h v)

  run_system-IsReady :
      (cfg : StrategyConfig D F) (s : System D F) (evs : List (Event D))
      → IsReady cfg s
      → IsReady cfg (run_system s evs)
  unfolding run_system
  run_system-IsReady cfg s [] v = v
  run_system-IsReady cfg s (ev ∷ evs) v =
      run_system-IsReady cfg (or_same s (fire s ev)) evs (step-IsReady cfg s ev v)

  new_system-IsReady : (cfg : StrategyConfig D F) → IsReady cfg (new_system cfg)
  unfolding new_system new_engine with_storage
  new_system-IsReady cfg = record { same_cfg = refl; three = tt; within = omega arith }

  pub reached-IsReady :
      (cfg : StrategyConfig D F) (evs : List (Event D))
      → IsReady cfg (run_system (new_system cfg) evs)
  reached-IsReady cfg evs = run_system-IsReady cfg (new_system cfg) evs (new_system-IsReady cfg)

  -- an identity that was not given yet
  run_system-absent :
      (cfg : StrategyConfig D F) (id : String) (s : System D F) (evs : List (Event D))
      → AddsToNil D
      → cfg.aggression ≡ aggressive
      → AreFresh evs
      → IsReady cfg s
      → IsAbsent (view_of id s)
      → IsFollowed id (view_of id (run_system s evs))
  unfolding run_system fire
  run_system-absent cfg id s [] adds taking fresh v absent = inl absent
  run_system-absent cfg id s (ev ∷ evs) adds taking (own, fresh) v absent =
      elim (minted-cases id ev) [
        | inl (now, e) ↦
            run_system-IsFollowed id (or_same s (fire s ev)) evs adds (own id (ap minted_by e)) (
              or_same-elim (λ q. IsFollowed id (view_of id q)) s ev (inl absent)
                (λ s' h.
                  own-IsFollowed cfg id now s s' s.chances taking refl (ap (fire s) (sym e) ∙ h) v
                    absent))
        | inr spare ↦
            run_system-absent cfg id (or_same s (fire s ev)) evs adds taking fresh
              (step-IsReady cfg s ev v)
              (or_same-elim (λ q. IsAbsent (view_of id q)) s ev absent
                (λ s' h.
                  Moves-IsAbsent id (view_of id s) (view_of id s') (fire-Moves id s s' ev spare h)
                    absent))
      ]

  -- from the start
  pub new_system-IsFollowed :
      (cfg : StrategyConfig D F) (id : String) (evs : List (Event D))
      → AddsToNil D
      → cfg.aggression ≡ aggressive
      → AreFresh evs
      → IsFollowed id (view_of id (run_system (new_system cfg) evs))
  unfolding new_system new_engine with_storage find
  new_system-IsFollowed cfg id evs adds taking fresh =
      run_system-absent cfg id (new_system cfg) evs adds taking fresh (new_system-IsReady cfg)
        (record { no_task = refl; no_report = refl; no_entry = refl })
