-- ===== src/Strategy/Cycles.antt =====
-- What an opportunity promises: its legs hand the whole proceeds on, and its profit is what is left.
pub mod Complete
use arb_core.Common.{
  ℕ, ◌≡◌, ◌⊎◌, inl, inr, Option, none, some, List, [], ◌∷◌, ◌++◌, arith, ok, All, All-append,
  length-append, length, ◌≤◌, ◌≢◌, refl, Returns, Returns-elim, Returns-bind, true, false, ◌>>=◌,
  Bool-cases,
}
use arb_core.Common.Dict.{Dict}
use arb_core.Decimal.{Decimal, DivDefined, nil, one, is_lt, ◌≺◌}
use arb_core.MarketData.Triangle.{TriView}
use arb_core.Strategy.Config.{FeeInfo}
use arb_core.Strategy.Detector.{
  Opportunity, best, start, fee_of, leg, forward_cycle, backward_cycle, with_prices,
  detect_triangular_opportunities,
}

module _ {D : Type 0} ⦃d : Decimal D⦄ where
  open d use {sub, mul, div}

  -- buy `bought` at ask_ab, swap it at ask_ac, sell the swapped at bid_bc
  pub record IsForward (view : TriView D) (fees : Dict (FeeInfo D)) (op : Opportunity D)
      : Type 0 where
    pub ask_ab : D
    pub bid_bc : D
    pub ask_ac : D
    pub bought : D
    pub swapped : D
    pub sold : D
    pub best_ab : best view.asks_ab ≡ some ask_ab
    pub best_bc : best view.bids_bc ≡ some bid_bc
    pub best_ac : best view.asks_ac ≡ some ask_ac
    pub pays : div start ask_ab ≡ some bought
    pub swaps : div (mul bought (sub one (fee_of fees view.sym_ab))) ask_ac ≡ some swapped
    pub sells : mul swapped (sub one (fee_of fees view.sym_ac)) ≡ sold
    pub earns :
        op.estimated_profit ≡ sub (mul (mul sold bid_bc) (sub one (fee_of fees view.sym_bc))) start
    pub in_order :
        op.legs
        ≡ leg view.sym_ab true ask_ab bought
          ∷ leg view.sym_ac true ask_ac swapped
          ∷ leg view.sym_bc false bid_bc sold
          ∷ []

  -- buy `bought` at ask_bc, sell the rest at bid_ac, sell the proceeds at bid_ab
  pub record IsBackward (view : TriView D) (fees : Dict (FeeInfo D)) (op : Opportunity D)
      : Type 0 where
    pub ask_bc : D
    pub bid_ac : D
    pub bid_ab : D
    pub bought : D
    pub swapped : D
    pub sold : D
    pub best_bc : best view.asks_bc ≡ some ask_bc
    pub best_ac : best view.bids_ac ≡ some bid_ac
    pub best_ab : best view.bids_ab ≡ some bid_ab
    pub pays : div start ask_bc ≡ some bought
    pub swaps : mul bought (sub one (fee_of fees view.sym_bc)) ≡ swapped
    pub sells : mul (mul swapped bid_ac) (sub one (fee_of fees view.sym_ac)) ≡ sold
    pub earns :
        op.estimated_profit ≡ sub (mul (mul sold bid_ab) (sub one (fee_of fees view.sym_ab))) start
    pub in_order :
        op.legs
        ≡ leg view.sym_bc true ask_bc bought
          ∷ leg view.sym_ac false bid_ac swapped
          ∷ leg view.sym_ab false bid_ab sold
          ∷ []

  abbrev pub IsSelfFinancing : TriView D → Dict (FeeInfo D) → D → Opportunity D → Type 0
  IsSelfFinancing view fees least op =
      (least ≺ op.estimated_profit) × (IsForward view fees op ⊎ IsBackward view fees op)

  -- The divisors of a cycle are not zero.
  pub record IsPriced (view : TriView D) : Type 0 where
    pub ab : (p : D) → best view.asks_ab ≡ some p → p ≢ nil
    pub ac : (p : D) → best view.asks_ac ≡ some p → p ≢ nil
    pub bc : (p : D) → best view.asks_bc ≡ some p → p ≢ nil
    pub ab_ac : (p q : D) → best view.asks_ab ≡ some p → best view.asks_ac ≡ some q → mul p q ≢ nil

  -- One of the opportunities has these legs and this profit.
  abbrev pub Offers : List (Opportunity D) → Opportunity D → Type 0
  Offers [] op = ⊥
  Offers (x ∷ xs) op =
      ((x.legs ≡ op.legs) × (x.estimated_profit ≡ op.estimated_profit)) ⊎ Offers xs op

  Offers-append_left :
      (xs ys : List (Opportunity D)) (op : Opportunity D) → Offers xs op → Offers (xs ++ ys) op
  Offers-append_left [] ys op h = absurd h
  Offers-append_left (x ∷ xs) ys op (inl h) = inl h
  Offers-append_left (x ∷ xs) ys op (inr h) = inr (Offers-append_left xs ys op h)

  Offers-append_right :
      (xs ys : List (Opportunity D)) (op : Opportunity D) → Offers ys op → Offers (xs ++ ys) op
  Offers-append_right [] ys op h = h
  Offers-append_right (x ∷ xs) ys op h = inr (Offers-append_right xs ys op h)

  -- The opportunities finance themselves, and every cycle of the kind that earns more than the
  -- least profit is among them.
  pub record IsComplete (view : TriView D) (fees : Dict (FeeInfo D)) (least : D) (most : ℕ)
      (Kind : Opportunity D → Type 0) (ops : List (Opportunity D)) : Type 0 where
    pub few : length ops ≤ most
    pub sound : All (IsSelfFinancing view fees least) ops
    pub complete : (op : Opportunity D) → Kind op → least ≺ op.estimated_profit → Offers ops op
