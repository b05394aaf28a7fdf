-- ===== src/Orderbook/Fill.antt =====
-- `estimate_fill_price` against its specification: the depth of a side and the cost of an amount.
use arb_core.Common.{
  ◌≡◌, refl, sym, false, some, [], ◌∷◌, arith, All-reverse, ok, err, if◌then◌else◌,
}
use arb_core.Decimal.{Decimal, IsOrdered, IsAdditive, DivDefined, nil, ◌≺◌, ◌≼◌, is_lt, is_le}
use arb_core.Orderbook.Ladder.{PriceMap}
use arb_core.Orderbook.{
  OrderBook, EstimatedFill, Side, bid, ask, sweep, estimate_fill_price, opposite,
  insufficient_depth,
}
use arb_core.Orderbook.Validity.{IsValid, IsPositive}

module _ {D : Type 0} ⦃d : Decimal D⦄ where
  open d use {add, sub, mul, div}

  -- all that the levels offer
  unfoldable pub depth : PriceMap D → D
  depth [] = nil
  depth ((p, s) ∷ m) = add s (depth m)

  abbrev least : D → D → D
  least s t = if is_le s t then s else t

  -- the price of an amount, level by level
  unfoldable pub cost : PriceMap D → D → D
  cost [] t = nil
  cost ((p, s) ∷ m) t = add (mul (least s t) p) (cost m (sub t (least s t)))

  module _ ⦃o : IsOrdered D⦄ ⦃a : IsAdditive D⦄ where
    -- what is left of an amount after one level
    sub-least : (s t : D) → nil ≺ s → nil ≼ t → nil ≼ sub t (least s t)
    sub-least s t p n =
        ground (arith, a.cmp_sub s t nil, a.cmp_sub t t nil, a.add_nil s, a.add_nil t, o.cmp_refl t)

    depth_nonneg : (m : PriceMap D) → IsPositive m → nil ≼ depth m
    unfolding depth
    depth_nonneg [] p = ground (arith, o.cmp_refl nil)
    depth_nonneg ((q, s) ∷ m) p =
        let rest = depth m in
        ground (
          arith,
          depth_nonneg m p.1,
          a.cmp_sub s nil rest,
          a.cmp_sub s nil nil,
          a.add_nil s,
          o.gt_of_lt nil s,
          o.lt_of_gt nil (sub nil s),
          o.lt_of_gt nil (add s rest),
          o.lt_trans rest (sub nil s) nil,
          o.gt_of_lt rest nil,
        )

    -- Something is left exactly if the levels offer less than the amount.
    sweep-left :
        (m : PriceMap D) (t q n : D)
        → IsPositive m
        → nil ≼ t
        → is_lt nil (sweep m t q n).0 ≡ is_lt (depth m) t
    unfolding sweep depth
    sweep-left [] t q n p h = refl
    sweep-left ((r, s) ∷ m) t q n p h =
        let taken = least s t in
        let rest = depth m in
        ground (
          arith,
          sweep-left m (sub t taken) (add q taken) (add n (mul taken r)) p.1 (sub-least s t p.0 h),
          depth_nonneg m p.1,
          a.cmp_sub s t rest,
          a.cmp_sub s t nil,
          a.add_nil s,
          a.sub_self t,
          o.gt_of_lt nil s,
          o.eq_of_cmp nil t,
          o.eq_of_cmp t nil,
          o.gt_of_lt t nil,
          o.eq_of_cmp nil rest,
          o.lt_of_gt t nil,
          o.cmp_refl nil,
          o.lt_of_gt nil (sub t s),
          o.lt_trans rest (sub t s) nil,
          o.gt_of_lt rest nil,
        )

    -- What is left and what is filled add up to the amount.
    sweep-qty : (m : PriceMap D) (t q n : D) → add (sweep m t q n).1 (sweep m t q n).0 ≡ add q t
    unfolding sweep
    sweep-qty [] t q n = refl
    sweep-qty ((r, s) ∷ m) t q n =
        let taken = least s t in
        ground (
          arith,
          sweep-qty m (sub t taken) (add q taken) (add n (mul taken r)),
          a.add_sub q t taken,
        )

    sweep_nonneg : (m : PriceMap D) (t q n : D) → IsPositive m → nil ≼ t → nil ≼ (sweep m t q n).0
    unfolding sweep
    sweep_nonneg [] t q n p h = h
    sweep_nonneg ((r, s) ∷ m) t q n p h =
        let taken = least s t in
        ground (
          arith,
          sweep_nonneg m (sub t taken) (add q taken) (add n (mul taken r)) p.1
              (sub-least s t p.0 h),
        )

    cost-nil : (m : PriceMap D) → IsPositive m → cost m nil ≡ nil
    unfolding cost
    cost-nil [] p = refl
    cost-nil ((r, s) ∷ m) p =
        ground (arith, cost-nil m p.1, o.gt_of_lt nil s, a.sub_self nil, a.nil_mul r, a.nil_add nil)

    sweep-cost :
        (m : PriceMap D) (t q n : D) → IsPositive m → nil ≼ t → (sweep m t q n).2 ≡ add n (cost m t)
    unfolding sweep cost
    sweep-cost [] t q n p h = sym (a.add_nil n)
    sweep-cost ((r, s) ∷ m) t q n p h =
        let taken = least s t in
        ground (
          arith,
          sweep-cost m (sub t taken) (add q taken) (add n (mul taken r)) p.1 (sub-least s t p.0 h),
          a.add_assoc n (mul taken r) (cost m (sub t taken)),
          cost-nil m p.1,
          o.gt_of_lt nil s,
          a.sub_self nil,
          a.nil_mul r,
          a.nil_add nil,
          a.add_nil n,
          o.eq_of_cmp t nil,
          o.lt_of_gt nil t,
          o.gt_of_lt t nil,
        )

    opposite-IsPositive :
        (b : OrderBook D) (side : Side) → IsValid b.inner → IsPositive (opposite b side)
    opposite-IsPositive b bid v = v.asks_valid.1
    opposite-IsPositive b ask v = All-reverse (λ e. nil ≺ e.1) b.inner.bids v.bids_valid.1

    -- Nothing is left of an amount that the levels offer, and all of it is filled.
    sweep_filled :
        (m : PriceMap D) (t : D)
        → IsPositive m
        → nil ≺ t
        → t ≼ depth m
        → (is_lt nil (sweep m t nil nil).0 ≡ false) × ((sweep m t nil nil).1 ≡ t)
    sweep_filled m t p h k =
        let left = (sweep m t nil nil).0 in
        let filled = (sweep m t nil nil).1 in
        ground (
          arith,
          sweep-left m t nil nil p,
          sweep_nonneg m t nil nil p,
          sweep-qty m t nil nil,
          a.nil_add t,
          a.add_nil filled,
          o.eq_of_cmp nil left,
          o.gt_of_lt (depth m) t,
          o.gt_of_lt t (depth m),
        )

    -- On a valid book an estimate for an amount above zero fails, with the error for missing depth,
    -- exactly if the opposite side offers less. Otherwise it returns and does not panic: the filled
    -- quantity is the amount, the notional is the cost of the amount taken best level first, and
    -- the average price is the quotient of the two.
    pub estimate_fill_price_lem :
        (div_defined : DivDefined D) (b : OrderBook D) (side : Side) (size : D)
        → IsValid b.inner
        → nil ≺ size
        → let levels = opposite b side in
          (depth levels ≺ size → estimate_fill_price b side size ≡ err insufficient_depth)
          × (size ≼ depth levels
              → (f : EstimatedFill D) × (estimate_fill_price b side size ≡ ok f)
                × (f.total_qty ≡ size)
                × (f.total_notional ≡ cost levels size)
                × (div f.total_notional f.total_qty ≡ some f.avg_price))
    unfolding estimate_fill_price
    estimate_fill_price_lem div_defined b side size v h = (
      λ lack. ground (arith, sweep-left levels size nil nil p, o.gt_of_lt nil size),
      λ enough.
          let (whole, all) = sweep_filled levels size p h enough in
          let (avg, e) = div_defined r.2 r.1 (λ z. ground (arith, o.cmp_refl nil)) in
          (
            record { avg_price = avg; total_qty = r.1; total_notional = r.2 },
            ground (arith, o.gt_of_lt nil size),
            all,
            ground (arith, sweep-cost levels size nil nil p, a.nil_add (cost levels size)),
            e,
          ),
    )
      where
        levels : PriceMap D
        levels = opposite b side

        p : IsPositive levels
        p = opposite-IsPositive b side v

        r : D × D × D
        r = sweep levels size nil nil
