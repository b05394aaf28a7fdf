-- ===== src/Decimal/Order.antt =====
-- Consequences of the laws of decimals that several components use.
use arb_core.Common.{◌≡◌, arith, false}
use arb_core.Decimal.{Decimal, IsOrdered, IsAdditive, IsMultiplicative, nil, one, ◌≺◌, ◌≼◌, is_lt}

module _ {D : Type 0} ⦃d : Decimal D⦄ ⦃o : IsOrdered D⦄ where
  open d use {sub, mul, add}

  pub le_refl : (a : D) → a ≼ a
  le_refl a = ground (arith, o.cmp_refl a)

  pub le_of_lt : (a b : D) → a ≺ b → a ≼ b
  le_of_lt a b h = ground arith

  pub le_trans : (a b c : D) → a ≼ b → b ≼ c → a ≼ c
  le_trans a b c h k = ground (arith, o.eq_of_cmp a b, o.eq_of_cmp b c, o.lt_trans a b c)

  pub not-lt_of_le : (a b : D) → a ≼ b → is_lt b a ≡ false
  not-lt_of_le a b h = ground (arith, o.gt_of_lt b a)

  pub le_of_not-lt : (a b : D) → is_lt b a ≡ false → a ≼ b
  le_of_not-lt a b h = ground (arith, o.lt_of_gt a b)

  module _ ⦃a : IsAdditive D⦄ where
    -- what remains of a whole, as a share of it
    pub rest-le : (f : D) → nil ≼ f → f ≼ one → (nil ≼ sub one f) × (sub one f ≼ one)
    rest-le f h k = ground (
      arith,
      a.cmp_sub f one nil,
      a.add_nil f,
      o.lt_of_gt nil (sub one f),
      o.gt_of_lt f one,
      o.lt_of_gt f one,
      o.cmp_refl nil,
      a.cmp_add nil f (sub one f),
      a.nil_add (sub one f),
      a.add_sub nil one f,
      a.nil_add f,
      a.nil_add one,
    )

    module _ ⦃m : IsMultiplicative D⦄ where
      pub mul_nonneg : (x y : D) → nil ≼ x → nil ≼ y → nil ≼ mul x y
      mul_nonneg x y h k = ground (arith, m.mul_mono nil x y k h, a.nil_mul y)

      -- a share of an amount is at most the amount
      pub share-le : (x k : D) → nil ≼ x → k ≼ one → mul x k ≼ x
      share-le x k h u = ground (arith, m.mul_mono k one x h u, m.one_mul x, m.mul_comm x k)

      pub mul_mono_right : (x y k : D) → nil ≼ k → x ≼ y → mul k x ≼ mul k y
      mul_mono_right x y k h u = rw (m.mul_comm k x, m.mul_comm k y) (m.mul_mono x y k h u)
