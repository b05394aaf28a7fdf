-- ===== src/Strategy/NoArbitrage.antt =====
-- Prices that leave no room for arbitrage.
use arb_core.Common.{
  String, All, str_eq, ◌∷◌, ◌≢◌, sym, ◌≡◌, refl, false, Option, none, some, [], arith, ok,
  Bool-cases, inl, inr,
}
use arb_core.Common.Dict.{Dict, find}
use arb_core.Decimal.{
  Decimal, IsOrdered, IsAdditive, IsMultiplicative, DividesDown, DivNonneg, DivDefined, nil, one,
  ◌≺◌, ◌≼◌, is_lt,
}
use arb_core.Decimal.Order.{
  le_refl, le_of_lt, mul_mono_right, le_trans, not-lt_of_le, rest-le, mul_nonneg, share-le,
}
use arb_core.MarketData.Triangle.{TriView}
use arb_core.Strategy.Config.{FeeInfo}
use arb_core.Strategy.Detector.{
  best, start, fee_of, less_fee, forward_cycle, backward_cycle, with_prices,
  detect_triangular_opportunities,
}

module _ {D : Type 0} ⦃d : Decimal D⦄ ⦃o : IsOrdered D⦄ ⦃a : IsAdditive D⦄
    ⦃m : IsMultiplicative D⦄ where
  open d use {sub, mul, div, add}

  -- a fee is a share of the amount
  abbrev pub IsFee : D → Type 0
  IsFee f = (nil ≼ f) × (f ≼ one)

  less_fee-le : (x f : D) → nil ≼ x → IsFee f → (nil ≼ less_fee x f) × (less_fee x f ≼ x)
  unfolding less_fee
  less_fee-le x f h k =
      let rest = rest-le f k.0 k.1 in
      (mul_nonneg x (sub one f) h rest.0, share-le x (sub one f) h rest.1)

  -- no profit above a least profit that is not negative
  no_profit :
      (final least : D) → final ≼ start → nil ≼ least → is_lt least (sub final start) ≡ false
  no_profit final least h k = not-lt_of_le (sub final start) least (
      ground (
        arith,
        a.cmp_sub start final nil,
        a.add_nil start,
        o.lt_of_gt (sub final start) least,
        o.lt_trans nil least (sub final start),
        o.eq_of_cmp nil least,
        o.gt_of_lt start final,
        o.lt_of_gt start final,
        o.gt_of_lt final start,
      ))

  -- A view in which a trade through two books gains nothing on the third, at positive prices.
  pub record IsFair (view : TriView D) : Type 0 where
    pub forward :
        (p q r : D)
        → best view.asks_ab ≡ some p
        → best view.bids_bc ≡ some q
        → best view.asks_ac ≡ some r
        → (nil ≺ p) × (nil ≼ q) × (nil ≺ r) × (nil ≺ mul p r) × (q ≼ mul p r)
    pub backward :
        (p q r : D)
        → best view.asks_bc ≡ some p
        → best view.bids_ac ≡ some q
        → best view.bids_ab ≡ some r
        → (nil ≺ p) × (nil ≼ q) × (nil ≼ r) × (mul q r ≼ p)

  -- None of the quotients that the two cycles take of the view's prices is rounded up.
  pub record NoneRoundedUp (view : TriView D) (fees : Dict (FeeInfo D)) : Type 0 where
    pub bought_ab : (p : D) → best view.asks_ab ≡ some p → DividesDown start p
    pub swapped_ac :
        (p r bought : D)
        → best view.asks_ab ≡ some p
        → best view.asks_ac ≡ some r
        → div start p ≡ some bought
        → DividesDown (less_fee bought (fee_of fees view.sym_ab)) r
    pub bought_bc : (p : D) → best view.asks_bc ≡ some p → DividesDown start p

  module _ (div_nonneg : DivNonneg D) where
    forward-le :
        (f_ab f_bc f_ac ask_ab bid_bc ask_ac bought swapped : D)
        → IsFee f_ab
        → IsFee f_bc
        → IsFee f_ac
        → nil ≺ ask_ab
        → nil ≼ bid_bc
        → nil ≺ ask_ac
        → bid_bc ≼ mul ask_ab ask_ac
        → div start ask_ab ≡ some bought
        → mul bought ask_ab ≼ start
        → div (less_fee bought f_ab) ask_ac ≡ some swapped
        → mul swapped ask_ac ≼ less_fee bought f_ab
        → less_fee (mul (less_fee swapped f_ac) bid_bc) f_bc ≼ start
    forward-le f_ab f_bc f_ac p q r bought swapped h h' h'' hp hq hr fair e down e' down' =
        let b = div_nonneg start p bought (m.dec_nonneg 10000 0) hp e in
        let l = less_fee-le bought f_ab b h in
        let s = div_nonneg (less_fee bought f_ab) r swapped l.0 hr e' in
        let held = less_fee swapped f_ac in
        let kept = less_fee-le swapped f_ac s h'' in
        let sold = m.mul_mono held swapped q hq kept.1 in
        let worth = mul_mono_right q (mul p r) swapped s fair in
        let swap =
          m.mul_mono (mul swapped r) bought p (le_of_lt nil p hp)
            (le_trans (mul swapped r) (less_fee bought f_ab) bought down' l.1) in
        let regroup : mul swapped (mul p r) ≡ mul (mul swapped r) p =
          rw (m.mul_comm p r) (sym (m.mul_assoc swapped r p)) in
        let back = le_trans (mul (mul swapped r) p) (mul bought p) start swap down in
        let final = less_fee-le (mul held q) f_bc (mul_nonneg held q kept.0 hq) h' in
        le_trans (less_fee (mul held q) f_bc) (mul held q) start final.1 (
          le_trans (mul held q) (mul swapped q) start sold
            (le_trans (mul swapped q) (mul swapped (mul p r)) start worth (rw regroup back)))

    backward-le :
        (f_ab f_bc f_ac ask_bc bid_ac bid_ab bought : D)
        → IsFee f_ab
        → IsFee f_bc
        → IsFee f_ac
        → nil ≺ ask_bc
        → nil ≼ bid_ac
        → nil ≼ bid_ab
        → mul bid_ac bid_ab ≼ ask_bc
        → div start ask_bc ≡ some bought
        → mul bought ask_bc ≼ start
        → less_fee (mul (less_fee (mul (less_fee bought f_bc) bid_ac) f_ac) bid_ab) f_ab ≼ start
    backward-le f_ab f_bc f_ac p q r bought h h' h'' hp hq hr fair e down =
        let b = div_nonneg start p bought (m.dec_nonneg 10000 0) hp e in
        let held = less_fee bought f_bc in
        let kept = less_fee-le bought f_bc b h' in
        let got = less_fee (mul held q) f_ac in
        let btc = less_fee-le (mul held q) f_ac (mul_nonneg held q kept.0 hq) h'' in
        let final = less_fee-le (mul got r) f_ab (mul_nonneg got r btc.0 hr) h in
        let sold = m.mul_mono got (mul held q) r hr btc.1 in
        let worth = mul_mono_right (mul q r) p held kept.0 fair in
        let back =
          le_trans (mul held p) (mul bought p) start
            (m.mul_mono held bought p (le_of_lt nil p hp) kept.1) down in
        le_trans (less_fee (mul got r) f_ab) (mul got r) start final.1 (
          le_trans (mul got r) (mul (mul held q) r) start sold (
            rw (m.mul_assoc held q r)
              (le_trans (mul held (mul q r)) (mul held p) start worth back)))

    taker_IsFee :
        (fees : Dict (FeeInfo D)) (symbol : String)
        → All (λ e. IsFee e.1.taker) fees
        → IsFee (fee_of fees symbol)
    unfolding fee_of find
    taker_IsFee [] symbol h = (le_refl (nil {D = D}), m.dec_nonneg 1 0)
    taker_IsFee ((k, fee) ∷ rest) symbol h = elim (Bool-cases (str_eq symbol k)) [
      | inl hit ↦ rw hit h.0
      | inr miss ↦ rw miss (taker_IsFee rest symbol h.1)
    ]

    module _ (div_defined : DivDefined D) (view : TriView D) (fees : Dict (FeeInfo D)) (least : D)
        (fair : IsFair view) (exact : NoneRoundedUp view fees)
        (shares : All (λ (e : String × FeeInfo D). IsFee e.1.taker) fees)
        (floor_ : nil ≼ least) where
      abbrev fee : String → D
      fee = fee_of fees

      abbrev is_fee : (symbol : String) → IsFee (fee symbol)
      is_fee symbol = taker_IsFee fees symbol shares

      not-nil : (p : D) → nil ≺ p → p ≢ nil
      not-nil p h e = ground (arith, o.cmp_refl nil)

      first_none :
          (x y w : Option D)
          → best view.asks_ab ≡ x
          → best view.bids_bc ≡ y
          → best view.asks_ac ≡ w
          → with_prices
              (forward_cycle view (fee view.sym_ab) (fee view.sym_bc) (fee view.sym_ac) least)
              x
              y
              w
            ≡ ok []
      unfolding forward_cycle
      first_none (some p) (some q) (some r) hp hq hr =
          let (p₁, q₁, r₁, pr, le) = fair.forward p q r hp hq hr in
          let (bought, e) = div_defined start p (not-nil p p₁) in
          let (swapped, e') = div_defined (less_fee bought (fee view.sym_ab)) r (not-nil r r₁) in
          let small =
            forward-le (fee view.sym_ab) (fee view.sym_bc) (fee view.sym_ac) p q r bought swapped
              (is_fee view.sym_ab) (is_fee view.sym_bc) (is_fee view.sym_ac) p₁ q₁ r₁ le e
              (exact.bought_ab p hp bought e) e' (exact.swapped_ac p r bought hp hr e swapped e') in
          let final = less_fee (mul (less_fee swapped (fee view.sym_ac)) q) (fee view.sym_bc) in
          rw (e, e', no_profit final least small floor_)
      first_none none y w hp hq hr = refl
      first_none (some p) none w hp hq hr = refl
      first_none (some p) (some q) none hp hq hr = refl

      second_none :
          (x y w : Option D)
          → best view.asks_bc ≡ x
          → best view.bids_ac ≡ y
          → best view.bids_ab ≡ w
          → with_prices
              (backward_cycle view (fee view.sym_ab) (fee view.sym_bc) (fee view.sym_ac) least)
              x
              y
              w
            ≡ ok []
      unfolding backward_cycle
      second_none (some p) (some q) (some r) hp hq hr =
          let (p₁, q₁, r₁, le) = fair.backward p q r hp hq hr in
          let (bought, e) = div_defined start p (not-nil p p₁) in
          let small =
            backward-le (fee view.sym_ab) (fee view.sym_bc) (fee view.sym_ac) p q r bought
              (is_fee view.sym_ab) (is_fee view.sym_bc) (is_fee view.sym_ac) p₁ q₁ r₁ le e
              (exact.bought_bc p hp bought e) in
          let btc = less_fee (mul (less_fee bought (fee view.sym_bc)) q) (fee view.sym_ac) in
          let final = less_fee (mul btc r) (fee view.sym_ab) in
          rw (e, no_profit final least small floor_)
      second_none none y w hp hq hr = refl
      second_none (some p) none w hp hq hr = refl
      second_none (some p) (some q) none hp hq hr = refl

      -- If the best prices are positive and a trade through two of the books never beats the price
      -- of the third, none of the quotients that the cycles take of these prices is rounded up, the
      -- fees are shares between 0 and 1 and the least profit is not negative, then the detector
      -- returns, and finds nothing. Of the decimals: sums and products are exact, division panics at
      -- zero only, and quotients keep their sign.
      pub detect_none : detect_triangular_opportunities view fees least ≡ ok []
      unfolding detect_triangular_opportunities
      detect_none = rw (
        first_none (best view.asks_ab) (best view.bids_bc) (best view.asks_ac) refl refl refl,
        second_none (best view.asks_bc) (best view.bids_ac) (best view.bids_ab) refl refl refl,
      )
