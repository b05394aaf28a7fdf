-- ===== src/Orderbook/Ladder.antt =====
-- `BTreeMap<Decimal, Decimal>`: the entries (price, size) in ascending order of the keys.
use arb_core.Common.{
  ◌≡◌, refl, Option, none, some, List, [], ◌∷◌, Ordering, arith, All, All-imp, if◌then◌else◌,
}
use arb_core.Decimal.{Decimal, IsOrdered, ◌≺◌, is_eq}

abbrev pub PriceMap : Type 0 → Type 0
PriceMap D = List (D × D)

module _ {D : Type 0} ⦃d : Decimal D⦄ where
  open d use {cmp}

  unfoldable pub get : D → PriceMap D → Option D
  get p [] = none
  get p ((q, t) ∷ m) = elim (cmp p q) [ Ordering.eq ↦ some t | _ ↦ get p m ]

  unfoldable pub insert : D → D → PriceMap D → PriceMap D
  insert p s [] = (p, s) ∷ []
  insert p s ((q, t) ∷ m) = elim (cmp p q) [
    | Ordering.lt ↦ (p, s) ∷ (q, t) ∷ m
    | Ordering.eq ↦ (q, s) ∷ m
    | Ordering.gt ↦ (q, t) ∷ insert p s m
  ]

  unfoldable pub remove : D → PriceMap D → PriceMap D
  remove p [] = []
  remove p ((q, t) ∷ m) = elim (cmp p q) [
    | Ordering.lt ↦ (q, t) ∷ m
    | Ordering.eq ↦ m
    | Ordering.gt ↦ (q, t) ∷ remove p m
  ]

  -- Every key lies above `p`.
  abbrev pub Above : D → PriceMap D → Type 0
  Above p = All λ e. p ≺ e.0

  abbrev pub IsAscending : PriceMap D → Type 0
  IsAscending [] = Unit
  IsAscending ((p, s) ∷ m) = Above p m × IsAscending m

  module _ ⦃o : IsOrdered D⦄ where
    pub get-insert :
        (p q s : D) (m : PriceMap D)
        → get q (insert p s m) ≡ (if is_eq p q then some s else get q m)
    unfolding get insert
    get-insert p q s [] = ground (arith, o.eq_of_cmp p q, o.eq_of_cmp q p, o.cmp_refl p)
    get-insert p q s ((r, t) ∷ m) = ground (
      arith,
      o.eq_of_cmp p q,
      o.eq_of_cmp q p,
      o.eq_of_cmp p r,
      o.eq_of_cmp q r,
      o.cmp_refl p,
      o.cmp_refl q,
      get-insert p q s m,
    )

    get-Above : (p q : D) (m : PriceMap D) → Above q m → p ≺ q → get p m ≡ none
    unfolding get
    get-Above p q [] a h = refl
    get-Above p q ((r, t) ∷ m) a h = ground (arith, o.lt_trans p q r, get-Above p q m a.1)

    get-Above_self : (p : D) (m : PriceMap D) → Above p m → get p m ≡ none
    unfolding get
    get-Above_self p [] a = refl
    get-Above_self p ((r, t) ∷ m) a = ground (arith, get-Above_self p m a.1)

    pub get-remove :
        (p q : D) (m : PriceMap D)
        → IsAscending m
        → get q (remove p m) ≡ (if is_eq p q then none else get q m)
    unfolding get remove
    get-remove p q [] a = ground arith
    get-remove p q ((r, t) ∷ m) a = ground (
      arith,
      o.eq_of_cmp p q,
      o.eq_of_cmp p r,
      o.eq_of_cmp q r,
      o.cmp_refl p,
      o.cmp_refl q,
      get-Above p r m a.0,
      get-Above_self r m a.0,
      get-remove p q m a.1,
    )

    pub All-insert {κ} :
        (P : D × D → Type κ) (p s : D) (m : PriceMap D)
        → ((q : D) → P (q, s))
        → All P m
        → All P (insert p s m)
    unfolding insert
    All-insert P p s [] n a = (n p, tt)
    All-insert P p s ((q, t) ∷ m) n a = ground (arith, n p, n q, All-insert P p s m n a.1)

    Above-insert : (b p s : D) (m : PriceMap D) → b ≺ p → Above b m → Above b (insert p s m)
    unfolding insert
    Above-insert b p s [] h a = (h, tt)
    Above-insert b p s ((q, t) ∷ m) h a = ground (arith, Above-insert b p s m h a.1)

    pub All-remove {κ} :
        (P : D × D → Type κ) (p : D) (m : PriceMap D) → All P m → All P (remove p m)
    unfolding remove
    All-remove P p [] a = tt
    All-remove P p ((q, t) ∷ m) a = ground (arith, All-remove P p m a.1)

    Above-trans : (p q : D) (m : PriceMap D) → p ≺ q → Above q m → Above p m
    Above-trans p q m h = All-imp (λ e. o.lt_trans p q e.0 h) m

    pub insert-IsAscending : (p s : D) (m : PriceMap D) → IsAscending m → IsAscending (insert p s m)
    unfolding insert
    insert-IsAscending p s [] a = (tt, tt)
    insert-IsAscending p s ((q, t) ∷ m) a = ground (
      arith,
      Above-trans p q m,
      o.lt_of_gt p q,
      Above-insert q p s m,
      insert-IsAscending p s m a.1,
    )

    pub remove-IsAscending : (p : D) (m : PriceMap D) → IsAscending m → IsAscending (remove p m)
    unfolding remove
    remove-IsAscending p [] a = tt
    remove-IsAscending p ((q, t) ∷ m) a =
        ground (arith, All-remove (λ e. q ≺ e.0) p m a.0, remove-IsAscending p m a.1)
