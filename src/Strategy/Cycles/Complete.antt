-- ===== src/Strategy/Cycles/Complete.antt =====
-- The detector finds just the cycles that earn.
use arb_core.Common.{
  ◌≡◌, ◌⊎◌, inl, inr, Option, none, some, List, ◌++◌, arith, ok, All-append, length-append, refl,
  Returns, Returns-elim, Returns-bind, ◌>>=◌, Bool-cases,
}
use arb_core.Common.Dict.{Dict}
use arb_core.Decimal.{Decimal, DivDefined, one, is_lt, ◌≺◌}
use arb_core.MarketData.Triangle.{TriView}
use arb_core.Strategy.Config.{FeeInfo}
use arb_core.Strategy.Detector.{
  Opportunity, best, start, fee_of, forward_cycle, backward_cycle, with_prices,
  detect_triangular_opportunities,
}
use arb_core.Strategy.Cycles.{
  IsForward, IsBackward, IsSelfFinancing, IsPriced, Offers, Offers-append_left, Offers-append_right,
  IsComplete,
}

module _ {D : Type 0} ⦃d : Decimal D⦄ where
  open d use {sub, mul, div}

  module _ (div_defined : DivDefined D) (view : TriView D) (z : IsPriced view)
      (fees : Dict (FeeInfo D)) (least : D) where
    abbrev f_ab : D
    f_ab = fee_of fees view.sym_ab

    abbrev f_bc : D
    f_bc = fee_of fees view.sym_bc

    abbrev f_ac : D
    f_ac = fee_of fees view.sym_ac

    IsForward-IsComplete :
        (p q r : D)
        → best view.asks_ab ≡ some p
        → best view.bids_bc ≡ some q
        → best view.asks_ac ≡ some r
        → Returns
            (forward_cycle view f_ab f_bc f_ac least p q r)
            (IsComplete view fees least 1 (IsForward view fees))
    unfolding forward_cycle
    IsForward-IsComplete p q r hp hq hr =
        let (bought, e) = div_defined start p (z.ab p hp) in
        let (swapped, e') = div_defined (mul bought (sub one f_ab)) r (z.ac r hr) in
        let (implied, e'') = div_defined q (mul p r) (z.ab_ac p r hp hr) in
        let sold = mul swapped (sub one f_ac) in
        let profit = sub (mul (mul sold q) (sub one f_bc)) start in
        elim (Bool-cases (is_lt least profit)) [
          | inl more ↦
              rw (e, e', more, e'')
                (record {
                  few = omega arith;
                  sound = (
                    (
                      ground arith,
                      inl (record {
                        ask_ab = p;
                        bid_bc = q;
                        ask_ac = r;
                        bought = bought;
                        swapped = swapped;
                        sold = sold;
                        best_ab = hp;
                        best_bc = hq;
                        best_ac = hr;
                        pays = e;
                        swaps = e';
                        sells = refl;
                        earns = refl;
                        in_order = refl;
                      }),
                    ),
                    tt,
                  );
                  complete = λ op w m. inl (ground arith, ground arith);
                })
          | inr less ↦
              rw (e, e', less)
                (record { few = omega arith; sound = tt; complete = λ op w m. ground arith })
        ]

    IsBackward-IsComplete :
        (p q r : D)
        → best view.asks_bc ≡ some p
        → best view.bids_ac ≡ some q
        → best view.bids_ab ≡ some r
        → Returns
            (backward_cycle view f_ab f_bc f_ac least p q r)
            (IsComplete view fees least 1 (IsBackward view fees))
    unfolding backward_cycle
    IsBackward-IsComplete p q r hp hq hr =
        let (bought, e) = div_defined start p (z.bc p hp) in
        let swapped = mul bought (sub one f_bc) in
        let (implied, e'') = div_defined (mul r q) p (z.bc p hp) in
        let sold = mul (mul swapped q) (sub one f_ac) in
        let profit = sub (mul (mul sold r) (sub one f_ab)) start in
        elim (Bool-cases (is_lt least profit)) [
          | inl more ↦
              rw (e, more, e'')
                (record {
                  few = omega arith;
                  sound = (
                    (
                      ground arith,
                      inr (record {
                        ask_bc = p;
                        bid_ac = q;
                        bid_ab = r;
                        bought = bought;
                        swapped = swapped;
                        sold = sold;
                        best_bc = hp;
                        best_ac = hq;
                        best_ab = hr;
                        pays = e;
                        swaps = refl;
                        sells = refl;
                        earns = refl;
                        in_order = refl;
                      }),
                    ),
                    tt,
                  );
                  complete = λ op w m. inl (ground arith, ground arith);
                })
          | inr less ↦
              rw (e, less)
                (record { few = omega arith; sound = tt; complete = λ op w m. ground arith })
        ]

    first_cycle :
        (x y w : Option D)
        → best view.asks_ab ≡ x
        → best view.bids_bc ≡ y
        → best view.asks_ac ≡ w
        → Returns
            (with_prices (forward_cycle view f_ab f_bc f_ac least) x y w)
            (IsComplete view fees least 1 (IsForward view fees))
    first_cycle (some p) (some q) (some r) hp hq hr = IsForward-IsComplete p q r hp hq hr
    first_cycle none y w hp hq hr = record {
      few = omega arith;
      sound = tt;
      complete = λ op k m. ground arith;
    }
    first_cycle (some p) none w hp hq hr = record {
      few = omega arith;
      sound = tt;
      complete = λ op k m. ground arith;
    }
    first_cycle (some p) (some q) none hp hq hr = record {
      few = omega arith;
      sound = tt;
      complete = λ op k m. ground arith;
    }

    second_cycle :
        (x y w : Option D)
        → best view.asks_bc ≡ x
        → best view.bids_ac ≡ y
        → best view.bids_ab ≡ w
        → Returns
            (with_prices (backward_cycle view f_ab f_bc f_ac least) x y w)
            (IsComplete view fees least 1 (IsBackward view fees))
    second_cycle (some p) (some q) (some r) hp hq hr = IsBackward-IsComplete p q r hp hq hr
    second_cycle none y w hp hq hr = record {
      few = omega arith;
      sound = tt;
      complete = λ op k m. ground arith;
    }
    second_cycle (some p) none w hp hq hr = record {
      few = omega arith;
      sound = tt;
      complete = λ op k m. ground arith;
    }
    second_cycle (some p) (some q) none hp hq hr = record {
      few = omega arith;
      sound = tt;
      complete = λ op k m. ground arith;
    }

    abbrev pub IsCycle : Opportunity D → Type 0
    IsCycle op = IsForward view fees op ⊎ IsBackward view fees op

    both :
        (xs ys : List (Opportunity D))
        → IsComplete view fees least 1 (IsForward view fees) xs
        → IsComplete view fees least 1 (IsBackward view fees) ys
        → IsComplete view fees least 2 IsCycle (xs ++ ys)
    both xs ys h k = record {
      few = omega (arith, length-append {0} xs ys);
      sound = All-append (IsSelfFinancing view fees least) xs ys h.sound k.sound;
      complete = complete;
    }
      where
        complete :
            (op : Opportunity D) → IsCycle op → least ≺ op.estimated_profit → Offers (xs ++ ys) op
        complete op (inl w) m = Offers-append_left xs ys op (h.complete op w m)
        complete op (inr w) m = Offers-append_right xs ys op (k.complete op w m)

    -- If no best ask, nor the product of the two that one cycle multiplies, is zero, the detector
    -- returns and does not panic. It returns two opportunities at most; each earns more than the
    -- least profit, starts with 10000, hands the whole proceeds of a leg, less the taker fee, to
    -- the next leg at the best price, and reports as profit what the last leg leaves of it. And no
    -- cycle of either direction that earns more than the least profit is missing.
    pub detect_lem :
        (ops : List (Opportunity D)) × (detect_triangular_opportunities view fees least ≡ ok ops)
        × IsComplete view fees least 2 IsCycle ops
    unfolding detect_triangular_opportunities
    detect_lem = Returns-elim (detect_triangular_opportunities view fees least) (
        Returns-bind (IsComplete view fees least 1 (IsForward view fees))
          (IsComplete view fees least 2 IsCycle)
          (with_prices (forward_cycle view f_ab f_bc f_ac least) (best view.asks_ab)
            (best view.bids_bc) (best view.asks_ac))
          (λ first.
            with_prices (backward_cycle view f_ab f_bc f_ac least) (best view.asks_bc)
              (best view.bids_ac) (best view.bids_ab)
            >>= λ second. ok (first ++ second))
          (first_cycle _ _ _ refl refl refl)
          (λ xs h.
            Returns-bind (IsComplete view fees least 1 (IsBackward view fees))
              (IsComplete view fees least 2 IsCycle)
              (with_prices (backward_cycle view f_ab f_bc f_ac least) (best view.asks_bc)
                (best view.bids_ac) (best view.bids_ab))
              (λ second. ok (xs ++ second)) (second_cycle _ _ _ refl refl refl)
              (λ ys k. both xs ys h k)))
