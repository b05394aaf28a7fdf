-- ===== src/Strategy/Engine/Timeouts.antt =====
-- What a scan for timeouts does to the plans in flight.
use mathlib.Core.List.{append_assoc, append-nil}
use arb_core.Common.{
  ℕ, ◌≡◌, refl, Bool, true, false, ◌||◌, Option, none, some, List, [], ◌∷◌, ◌++◌, map, String,
  arith, if◌then◌else◌, ltb, inl, inr, Bool-cases, str_eq, eq_iff, ap, ◌∙◌,
}
use arb_core.Common.Dict.{Dict, find, find-delete, IsMap}
use arb_core.Strategy.Engine.{StrategyEngine, InFlightPlan, CancelRequest, send_cancel}
use arb_core.Strategy.Engine.Monitor.{to_cancel, cancel_plan, cancel_plans, scan_timeouts, age}

abbrev pub among : String → List String → Bool
among id [] = false
among id (x ∷ xs) = str_eq id x || among id xs

-- the request to cancel all legs of a plan
abbrev pub request : String → CancelRequest
request id = record { plan_id = id; leg_idx = none }

module _ {D : Type 0} where
  -- whether there is a plan and its time is up
  abbrev pub is_due : ℕ → Option (InFlightPlan D) → Bool
  is_due now none = false
  is_due now (some p) = ltb p.timeout_ms (age now p)

  among-to_cancel :
      (m : Dict (InFlightPlan D)) (now : ℕ) (id : String)
      → IsMap m
      → among id (to_cancel m now) ≡ is_due now (find m id)
  unfolding to_cancel find
  among-to_cancel [] now id h = refl
  among-to_cancel ((key, p) ∷ rest) now id (fresh, h) =
      let ih = among-to_cancel rest now id h in
      let same = eq_iff id key in
      elim (Bool-cases (str_eq id key)) [
        | inl t ↦
            let gone : find rest id ≡ none = rw (same.0 t) fresh in
            let ih' : among id (to_cancel rest now) ≡ false = ih ∙ ap (is_due now) gone in
            ground (arith, ih', t)
        | inr f ↦ ground (arith, ih, f)
      ]

  module _ {F : Type 0} where
    find-cancel_plan :
        (e : StrategyEngine D F) (x id : String)
        → find (cancel_plan e x).inflight id ≡ (if str_eq id x then none else find e.inflight id)
    unfolding cancel_plan send_cancel
    find-cancel_plan e x id = ground (arith, find-delete e.inflight x id, eq_iff id x)

    pub find-cancel_plans :
        (e : StrategyEngine D F) (ids : List String) (id : String)
        → find (cancel_plans e ids).inflight id
          ≡ (if among id ids then none else find e.inflight id)
    unfolding cancel_plans
    find-cancel_plans e [] id = refl
    find-cancel_plans e (x ∷ xs) id =
        ground (arith, find-cancel_plans (cancel_plan e x) xs id, find-cancel_plan e x id)

    cancel_plan-sent :
        (e : StrategyEngine D F) (x : String)
        → e.cancel_open ≡ true
        → ((cancel_plan e x).cancel_sent ≡ e.cancel_sent ++ (request x ∷ []))
          × ((cancel_plan e x).cancel_open ≡ true)
    unfolding cancel_plan send_cancel
    cancel_plan-sent e x h = ground arith

    cancel_plans-sent :
        (e : StrategyEngine D F) (ids : List String)
        → e.cancel_open ≡ true
        → (cancel_plans e ids).cancel_sent ≡ e.cancel_sent ++ map request ids
    unfolding cancel_plans
    cancel_plans-sent e [] h = ground (arith, append-nil e.cancel_sent)
    cancel_plans-sent e (x ∷ xs) h =
        let (s, o) = cancel_plan-sent e x h in
        ground (
          arith,
          cancel_plans-sent (cancel_plan e x) xs o,
          s,
          append_assoc e.cancel_sent (request x ∷ []) (map request xs),
        )

    -- After a scan, the plans whose time is up at its clock reading are no longer in flight, all
    -- others are as they were, and, if the channel is open, one request to cancel all legs of each
    -- such plan has been sent, in the order of the map. The map has no key twice.
    pub scan_timeouts_lem :
        (e : StrategyEngine D F) (now : ℕ)
        → IsMap e.inflight
        → ((id : String)
            → find (scan_timeouts e now).inflight id
              ≡ (if is_due now (find e.inflight id) then none else find e.inflight id))
          × (e.cancel_open ≡ true
              → (scan_timeouts e now).cancel_sent
                ≡ e.cancel_sent ++ map request (to_cancel e.inflight now))
    unfolding scan_timeouts
    scan_timeouts_lem e now h = (
      (λ id. ground (
        arith,
        find-cancel_plans e (to_cancel e.inflight now) id,
        among-to_cancel e.inflight now id h,
      )),
      cancel_plans-sent e (to_cancel e.inflight now),
    )
