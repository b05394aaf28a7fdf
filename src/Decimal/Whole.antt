-- ===== src/Decimal/Whole.antt =====
-- Whole numbers as decimals: the instance at which the witnesses stand. Its literals drop the digits
-- behind the point, and its quotients are cut towards zero.
use Prim.Native.Nat.{compare, ◌/◌}
use native.Mathlib.Nat.{mul-le-mul, le_refl, div-mul-le_self}
use arb_core.Common.{
  ap, ◌≤◌, ℕ, zero, refl, suc, ◌+◌, ◌-◌, ◌*◌, ◌^◌, ◌≡◌, Option, none, some, Ordering, arith, ltb,
  leb, if◌then◌else◌,
}
use arb_core.Decimal.{
  Decimal, IsOrdered, IsAdditive, IsMultiplicative, DivDefined, DividesDown, DivNonneg, FloorBelow,
  MulMono, MaxIsLarger, ◌≺◌, AddsToNil, nil, ◌≼◌,
}

-- `negsuc n` is -(n + 1).
pub data ℤ : Type 0 where
  pos : ℕ → ℤ
  negsuc : ℕ → ℤ

abbrev pub pos_part : ℤ → ℕ
pos_part (pos n) = n
pos_part (negsuc n) = 0

abbrev pub neg_part : ℤ → ℕ
neg_part (pos n) = 0
neg_part (negsuc n) = suc n

abbrev pub sub_ℕ : ℕ → ℕ → ℤ
sub_ℕ a b = if leb b a then pos (a - b) else negsuc (b - a - 1)

infixl 65 ◌+ℤ◌ ◌-ℤ◌
infixl 70 ◌*ℤ◌
abbrev pub ◌+ℤ◌ : ℤ → ℤ → ℤ
a +ℤ b = sub_ℕ (pos_part a + pos_part b) (neg_part a + neg_part b)

abbrev pub ◌-ℤ◌ : ℤ → ℤ → ℤ
a -ℤ b = sub_ℕ (pos_part a + neg_part b) (neg_part a + pos_part b)

unfoldable pub ◌*ℤ◌ : ℤ → ℤ → ℤ
a *ℤ b =
    sub_ℕ (pos_part a * pos_part b + neg_part a * neg_part b)
      (pos_part a * neg_part b + neg_part a * pos_part b)

abbrev pub order : ℤ → ℤ → Ordering
order a b = compare (pos_part a + neg_part b) (pos_part b + neg_part a)

abbrev pub quotient : ℤ → ℤ → Option ℤ
quotient (pos a) (pos b) = if ltb 0 b then some (pos (a / b)) else none
quotient (negsuc a) (pos b) = if ltb 0 b then some (sub_ℕ 0 (suc a / b)) else none
quotient (pos a) (negsuc b) = some (sub_ℕ 0 (a / suc b))
quotient (negsuc a) (negsuc b) = some (pos (suc a / suc b))

instance abbrev pub whole : Decimal ℤ
whole = record {
  dec = λ m s. pos (m / 10 ^ s);
  cmp = order;
  add = ◌+ℤ◌;
  sub = ◌-ℤ◌;
  mul = ◌*ℤ◌;
  div = quotient;
  floor = λ a. a;
  max = λ a b. elim (order a b) [ Ordering.lt ↦ b | _ ↦ a ];
  saturating_add = ◌+ℤ◌;
}

order_refl : (a : ℤ) → order a a ≡ Ordering.eq
order_refl a = ground arith

eq_of_order : (a b : ℤ) → order a b ≡ Ordering.eq → a ≡ b
eq_of_order a b h = ground arith

lt_of_order : (a b : ℤ) → order a b ≡ Ordering.gt → order b a ≡ Ordering.lt
lt_of_order a b h = ground arith

gt_of_order : (a b : ℤ) → order a b ≡ Ordering.lt → order b a ≡ Ordering.gt
gt_of_order a b h = ground arith

order_trans :
    (a b c : ℤ) → order a b ≡ Ordering.lt → order b c ≡ Ordering.lt → order a c ≡ Ordering.lt
order_trans a b c h k = ground arith

instance pub whole-IsOrdered : IsOrdered ℤ
whole-IsOrdered = record {
  cmp_refl = order_refl;
  eq_of_cmp = eq_of_order;
  lt_of_gt = lt_of_order;
  gt_of_lt = gt_of_order;
  lt_trans = order_trans;
}

zero_add : (a : ℤ) → pos 0 +ℤ a ≡ a
zero_add a = ground arith

add_zero : (a : ℤ) → a +ℤ pos 0 ≡ a
add_zero a = ground arith

add_sub : (a b c : ℤ) → a +ℤ c +ℤ (b -ℤ c) ≡ a +ℤ b
add_sub a b c = ground arith

add_assoc : (a b c : ℤ) → a +ℤ b +ℤ c ≡ a +ℤ (b +ℤ c)
add_assoc a b c = ground arith

mul_parts :
    (a b : ℤ)
    → pos_part (a *ℤ b) + (pos_part a * neg_part b + neg_part a * pos_part b)
      ≡ neg_part (a *ℤ b) + (pos_part a * pos_part b + neg_part a * neg_part b)
unfolding ◌*ℤ◌
mul_parts a b = ground arith

eq_of_parts : (a b : ℤ) → pos_part a + neg_part b ≡ pos_part b + neg_part a → a ≡ b
eq_of_parts a b h = ground arith

zero_mul : (a : ℤ) → pos 0 *ℤ a ≡ pos 0
zero_mul a = eq_of_parts (pos 0 *ℤ a) (pos 0) (omega (arith, mul_parts (pos 0) a))

sub_self : (a : ℤ) → a -ℤ a ≡ pos 0
sub_self a = ground arith

order_add : (a b c : ℤ) → order (a +ℤ c) (b +ℤ c) ≡ order a b
order_add a b c = ground arith

order_sub : (a b c : ℤ) → order c (b -ℤ a) ≡ order (a +ℤ c) b
order_sub a b c = ground arith

instance pub whole-IsAdditive : IsAdditive ℤ
whole-IsAdditive = record {
  nil_add = zero_add;
  add_nil = add_zero;
  add_sub = add_sub;
  add_assoc = add_assoc;
  nil_mul = zero_mul;
  sub_self = sub_self;
  cmp_add = order_add;
  cmp_sub = order_sub;
}

pub whole-DivDefined : DivDefined ℤ
whole-DivDefined (pos a) (pos (suc b)) h = (pos (a / suc b), ground arith)
whole-DivDefined (negsuc a) (pos (suc b)) h = (sub_ℕ 0 (suc a / suc b), ground arith)
whole-DivDefined (pos a) (negsuc b) h = (sub_ℕ 0 (a / suc b), ground arith)
whole-DivDefined (negsuc a) (negsuc b) h = (pos (suc a / suc b), ground arith)
whole-DivDefined (pos a) (pos zero) h = absurd (h refl)
whole-DivDefined (negsuc a) (pos zero) h = absurd (h refl)

mul_comm : (a b : ℤ) → a *ℤ b ≡ b *ℤ a
mul_comm a b = eq_of_parts _ _ (omega (arith, mul_parts a b, mul_parts b a))

mul_assoc : (a b c : ℤ) → a *ℤ b *ℤ c ≡ a *ℤ (b *ℤ c)
mul_assoc a b c = eq_of_parts _ _ (
    omega (
      arith,
      mul_parts (a *ℤ b) c,
      mul_parts a (b *ℤ c),
      ap (λ (t : ℕ). t * pos_part c) (mul_parts a b),
      ap (λ (t : ℕ). t * neg_part c) (mul_parts a b),
      ap (λ (t : ℕ). t * pos_part a) (mul_parts b c),
      ap (λ (t : ℕ). t * neg_part a) (mul_parts b c),
    ))

one_mul : (a : ℤ) → pos 1 *ℤ a ≡ a
one_mul a = eq_of_parts _ _ (omega (arith, mul_parts (pos 1) a))

le_of_parts : (a b : ℤ) → pos_part a + neg_part b ≤ pos_part b + neg_part a → a ≼ b
le_of_parts a b h = ground arith

parts_of_le : (a b : ℤ) → a ≼ b → pos_part a + neg_part b ≤ pos_part b + neg_part a
parts_of_le a b h = ground arith

mul_mono : (a b c : ℤ) → nil ≼ c → a ≼ b → a *ℤ c ≼ b *ℤ c
mul_mono a b (negsuc n) z h = absurd (omega (arith, parts_of_le nil (negsuc n) z))
mul_mono a b (pos n) z h = le_of_parts (a *ℤ pos n) (b *ℤ pos n) (
    omega
      (arith, mul_parts a (pos n), mul_parts b (pos n), mul-le-mul (parts_of_le a b h) (le_refl n)))

pub dec_nonneg : (m s : ℕ) → nil ≼ whole.dec m s
dec_nonneg m s = ground arith

instance pub whole-IsMultiplicative : IsMultiplicative ℤ
whole-IsMultiplicative = record {
  mul_comm = mul_comm;
  mul_assoc = mul_assoc;
  one_mul = one_mul;
  mul_mono = mul_mono;
  dec_nonneg = dec_nonneg;
}

pub whole-DividesDown : (a b : ℤ) → nil ≼ a → nil ≺ b → DividesDown a b
whole-DividesDown (pos a) (pos (suc b)) n h c e =
    let f : c ≡ pos (a / suc b) = ground arith in
    rw f (
      le_of_parts (pos (a / suc b) *ℤ pos (suc b)) (pos a)
        (omega (arith, mul_parts (pos (a / suc b)) (pos (suc b)), div-mul-le_self a (suc b))))
whole-DividesDown (pos a) (pos zero) n h c e = absurd (ground arith)
whole-DividesDown (negsuc a) b n h c e = absurd (omega (arith, parts_of_le nil (negsuc a) n))
whole-DividesDown (pos a) (negsuc b) n h c e = absurd (ground arith)

pub whole-DivNonneg : DivNonneg ℤ
whole-DivNonneg (pos a) (pos (suc b)) c n h e =
    let f : c ≡ pos (a / suc b) = ground arith in rw f (ground arith)
whole-DivNonneg (pos a) (pos zero) c n h e = absurd (ground arith)
whole-DivNonneg (negsuc a) b c n h e = absurd (omega (arith, parts_of_le nil (negsuc a) n))
whole-DivNonneg (pos a) (negsuc b) c n h e = absurd (ground arith)

pub whole-FloorBelow : FloorBelow ℤ
whole-FloorBelow a = ground (arith, whole-IsOrdered.cmp_refl a)

pub whole-MulMono : MulMono ℤ
whole-MulMono = mul_mono

pub whole-MaxIsLarger : MaxIsLarger ℤ
whole-MaxIsLarger a b = ground arith

pub whole-AddsToNil : AddsToNil ℤ
whole-AddsToNil q = ground (arith, whole-IsOrdered.cmp_refl q)
