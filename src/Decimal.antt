-- ===== src/Decimal.antt =====
-- `rust_decimal::Decimal` is a library of the program, so the model takes it as a parameter: a type
-- `D` with the operations that the source calls. A decimal stands for its value, so that equal
-- values are one decimal. `div` is `none` where the library panics, at a divisor of zero.
-- The overflow panics of `+`, `-` and `*` beyond 2^96 units are outside the model.
pub mod Whole
pub mod Order
use arb_core.Common.{if◌then◌else◌, ℕ, ◌≡◌, ◌≢◌, Bool, true, false, Option, some, Ordering}

pub record Decimal (D : Type 0) : Type 0 where
  -- `dec!`: the mantissa and the number of digits behind the point
  pub dec : ℕ → ℕ → D
  pub cmp : D → D → Ordering
  pub add : D → D → D
  pub sub : D → D → D
  pub mul : D → D → D
  pub div : D → D → Option D
  pub floor : D → D
  pub max : D → D → D
  pub saturating_add : D → D → D

module _ {D : Type 0} ⦃d : Decimal D⦄ where
  open d use {dec, cmp}

  -- `Decimal::ZERO` and `Decimal::ONE`
  abbrev pub nil : D
  nil = dec 0 0

  abbrev pub one : D
  one = dec 1 0

  -- `a < b`, `a <= b` and `a == b`
  abbrev pub is_lt : D → D → Bool
  is_lt a b = elim (cmp a b) [ Ordering.lt ↦ true | _ ↦ false ]

  abbrev pub is_le : D → D → Bool
  is_le a b = elim (cmp a b) [ Ordering.gt ↦ false | _ ↦ true ]

  abbrev pub is_eq : D → D → Bool
  is_eq a b = elim (cmp a b) [ Ordering.eq ↦ true | _ ↦ false ]

  infix 4 ◌≺◌ ◌≼◌
  abbrev pub ◌≺◌ : D → D → Type 0
  a ≺ b = cmp a b ≡ Ordering.lt

  abbrev pub ◌≼◌ : D → D → Type 0
  a ≼ b = is_le a b ≡ true

-- The documented order of the library: a total order of the values.
pub record IsOrdered (D : Type 0) ⦃d : Decimal D⦄ : Type 0 where
  pub cmp_refl : (a : D) → d.cmp a a ≡ Ordering.eq
  pub eq_of_cmp : (a b : D) → d.cmp a b ≡ Ordering.eq → a ≡ b
  pub lt_of_gt : (a b : D) → d.cmp a b ≡ Ordering.gt → b ≺ a
  pub gt_of_lt : (a b : D) → a ≺ b → d.cmp b a ≡ Ordering.gt
  pub lt_trans : (a b c : D) → a ≺ b → b ≺ c → a ≺ c

-- Arithmetic without round-off, as the library documents it.
pub record IsAdditive (D : Type 0) ⦃d : Decimal D⦄ : Type 0 where
  pub nil_add : (a : D) → d.add nil a ≡ a
  pub add_nil : (a : D) → d.add a nil ≡ a
  -- what is moved from one side of a sum to the other leaves it as it was
  pub add_sub : (a b c : D) → d.add (d.add a c) (d.sub b c) ≡ d.add a b
  pub add_assoc : (a b c : D) → d.add (d.add a b) c ≡ d.add a (d.add b c)
  pub nil_mul : (a : D) → d.mul nil a ≡ nil
  pub sub_self : (a : D) → d.sub a a ≡ nil
  pub cmp_add : (a b c : D) → d.cmp (d.add a c) (d.add b c) ≡ d.cmp a b
  -- a summand may change sides in a comparison
  pub cmp_sub : (a b c : D) → d.cmp c (d.sub b a) ≡ d.cmp (d.add a c) b

-- Multiplication without round-off, and literals that are not negative.
pub record IsMultiplicative (D : Type 0) ⦃d : Decimal D⦄ : Type 0 where
  pub mul_comm : (a b : D) → d.mul a b ≡ d.mul b a
  pub mul_assoc : (a b c : D) → d.mul (d.mul a b) c ≡ d.mul a (d.mul b c)
  pub one_mul : (a : D) → d.mul one a ≡ a
  pub mul_mono : (a b c : D) → nil ≼ c → a ≼ b → d.mul a c ≼ d.mul b c
  pub dec_nonneg : (m s : ℕ) → nil ≼ d.dec m s

-- The quotient of these two is exact or rounded down; in general it is rounded to the nearest.
abbrev pub DividesDown : {D : Type 0} ⦃d : Decimal D⦄ → D → D → Type 0
DividesDown {D} ⦃d⦄ a b = (c : D) → d.div a b ≡ some c → d.mul c b ≼ a

abbrev pub DivNonneg : (D : Type 0) ⦃d : Decimal D⦄ → Type 0
DivNonneg D ⦃d⦄ = (a b c : D) → nil ≼ a → nil ≺ b → d.div a b ≡ some c → nil ≼ c

-- Division panics at a divisor of zero only.
abbrev pub DivDefined : (D : Type 0) ⦃d : Decimal D⦄ → Type 0
DivDefined D ⦃d⦄ = (a b : D) → b ≢ nil → (c : D) × (d.div a b ≡ some c)

abbrev pub FloorBelow : (D : Type 0) ⦃d : Decimal D⦄ → Type 0
FloorBelow D ⦃d⦄ = (a : D) → d.floor a ≼ a

-- Products grow with their first factor, also where they are rounded.
abbrev pub MulMono : (D : Type 0) ⦃d : Decimal D⦄ → Type 0
MulMono D ⦃d⦄ = (a b c : D) → nil ≼ c → a ≼ b → d.mul a c ≼ d.mul b c

abbrev pub MaxIsLarger : (D : Type 0) ⦃d : Decimal D⦄ → Type 0
MaxIsLarger D ⦃d⦄ = (a b : D) → d.max a b ≡ (if is_lt a b then b else a)

-- What is saturatingly added to nothing is there.
abbrev pub AddsToNil : (D : Type 0) ⦃d : Decimal D⦄ → Type 0
AddsToNil D ⦃d⦄ = (q : D) → q ≼ d.saturating_add nil q
