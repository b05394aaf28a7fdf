-- ===== src/System/Ready.antt =====
-- The opportunities that the detector has at hand: how many, and of how many legs.
use arb_core.Common.{
  ℕ, ◌≤◌, ◌≡◌, refl, Option, none, some, List, ◌++◌, Outcome, ok, err, panic, ◌>>=◌, or_panic, All,
  All-append, arith, length, length-append, if-elim,
}
use arb_core.Common.Dict.{Dict}
use arb_core.Decimal.{Decimal, is_lt}
use arb_core.MarketData.Triangle.{TriView}
use arb_core.Strategy.Config.{StrategyError, FeeInfo}
use arb_core.Strategy.Detector.{
  Opportunity, LegEstimate, offer, forward_cycle, backward_cycle, with_prices, best,
  detect_triangular_opportunities,
}

module _ {D : Type 0} where
  abbrev pub HasThreeLegs : Opportunity D → Type 0
  HasThreeLegs op = length op.legs ≡ 3

  -- n opportunities at most, of three legs, if there is no error
  abbrev pub Fits : ℕ → Outcome (StrategyError D) (List (Opportunity D)) → Type 0
  Fits n (ok ops) = (length ops ≤ n) × All HasThreeLegs ops
  Fits n (err e) = Unit
  Fits n panic = Unit

  bind-Fits :
      {A : Type 0} (n : ℕ) (r : Outcome (StrategyError D) A)
      (f : A → Outcome (StrategyError D) (List (Opportunity D)))
      → ((a : A) → Fits n (f a))
      → Fits n (r >>= f)
  bind-Fits n (ok a) f h = h a
  bind-Fits n (err e) f h = tt
  bind-Fits n panic f h = tt

module _ {D : Type 0} ⦃d : Decimal D⦄ where
  open d use {sub, mul, div}

  offer-Fits :
      (min profit : D) (implied : Option D) (legs : List (LegEstimate D))
      → length legs ≡ 3
      → Fits 1 (offer min profit implied legs)
  unfolding offer
  offer-Fits min profit implied legs h =
      if-elim (Fits 1) (is_lt min profit) _ _
        (λ q. bind-Fits 1 (or_panic implied) _ (λ price. (omega arith, (h, tt))))
        (λ q. (omega arith, tt))

  forward_cycle-Fits :
      (view : TriView D) (fee_ab fee_bc fee_ac min ask_ab bid_bc ask_ac : D)
      → Fits 1 (forward_cycle view fee_ab fee_bc fee_ac min ask_ab bid_bc ask_ac)
  unfolding forward_cycle
  forward_cycle-Fits view fee_ab fee_bc fee_ac min ask_ab bid_bc ask_ac =
      bind-Fits 1 (or_panic (div _ ask_ab)) _
        (λ bought. bind-Fits 1 (or_panic (div _ ask_ac)) _ (λ swapped. offer-Fits min _ _ _ refl))

  backward_cycle-Fits :
      (view : TriView D) (fee_ab fee_bc fee_ac min ask_bc bid_ac bid_ab : D)
      → Fits 1 (backward_cycle view fee_ab fee_bc fee_ac min ask_bc bid_ac bid_ab)
  unfolding backward_cycle
  backward_cycle-Fits view fee_ab fee_bc fee_ac min ask_bc bid_ac bid_ab =
      bind-Fits 1 (or_panic (div _ ask_bc)) _ (λ bought. offer-Fits min _ _ _ refl)

  with_prices-Fits :
      (k : D → D → D → Outcome (StrategyError D) (List (Opportunity D))) (x y z : Option D)
      → ((a b c : D) → Fits 1 (k a b c))
      → Fits 1 (with_prices k x y z)
  with_prices-Fits k (some x) (some y) (some z) h = h x y z
  with_prices-Fits k (some x) (some y) none h = (omega arith, tt)
  with_prices-Fits k (some x) none z h = (omega arith, tt)
  with_prices-Fits k none y z h = (omega arith, tt)

  both-Fits :
      (r q : Outcome (StrategyError D) (List (Opportunity D)))
      → Fits 1 r
      → Fits 1 q
      → Fits 2 (r >>= λ first. q >>= λ second. ok (first ++ second))
  both-Fits (ok xs) (ok ys) (n, v) (m, w) =
      (omega (arith, length-append {0} xs ys), All-append HasThreeLegs xs ys v w)
  both-Fits (ok xs) (err e) v w = tt
  both-Fits (ok xs) panic v w = tt
  both-Fits (err e) q v w = tt
  both-Fits panic q v w = tt

  pub detect-Fits :
      (view : TriView D) (fees : Dict (FeeInfo D)) (min : D)
      → Fits 2 (detect_triangular_opportunities view fees min)
  unfolding detect_triangular_opportunities
  detect-Fits view fees min =
      both-Fits _ _
        (with_prices-Fits _ (best view.asks_ab) (best view.bids_bc) (best view.asks_ac)
          (λ a b c. forward_cycle-Fits view _ _ _ min a b c))
        (with_prices-Fits _ (best view.asks_bc) (best view.bids_ac) (best view.bids_ab)
          (λ a b c. backward_cycle-Fits view _ _ _ min a b c))
