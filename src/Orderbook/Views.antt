-- ===== src/Orderbook/Views.antt =====
-- What a reader sees of a valid book: sides best first, and the best level.
use mathlib.Core.List.{reverse-cons}
use mathlib.Core.Option
use arb_core.Common.{
  ℕ, zero, suc, ◌≡◌, refl, List, [], ◌∷◌, ◌++◌, map, reverse, All, All-append, All-reverse, take,
  head?,
}
use arb_core.Decimal.{Decimal, ◌≺◌}
use arb_core.Orderbook.Ladder.{PriceMap, IsAscending, Above}
use arb_core.Orderbook.{Level, OrderBook, Side, bid, ask, level, top_n, best_bid, best_ask}
use arb_core.Orderbook.Validity.{IsValid}

module _ {D : Type 0} ⦃d : Decimal D⦄ where
  -- the first price is the better one
  abbrev pub IsBetter : Side → D → D → Type 0
  IsBetter bid p q = q ≺ p
  IsBetter ask p q = p ≺ q

  abbrev pub IsBestFirst : Side → List (Level D) → Type 0
  IsBestFirst side [] = Unit
  IsBestFirst side (l ∷ ls) = All (λ k. IsBetter side l.price k.price) ls × IsBestFirst side ls

  abbrev IsDescending : PriceMap D → Type 0
  IsDescending [] = Unit
  IsDescending ((p, s) ∷ m) = All (λ e. e.0 ≺ p) m × IsDescending m

  IsDescending-append :
      (m : PriceMap D) (p s : D) → IsDescending m → Above p m → IsDescending (m ++ (p, s) ∷ [])
  IsDescending-append [] p s a b = (tt, tt)
  IsDescending-append ((q, t) ∷ m) p s a b =
      (All-append (λ e. e.0 ≺ q) m ((p, s) ∷ []) a.0 (b.0, tt), IsDescending-append m p s a.1 b.1)

  pub reverse-IsDescending : (m : PriceMap D) → IsAscending m → IsDescending (reverse m)
  reverse-IsDescending [] a = tt
  reverse-IsDescending ((p, s) ∷ m) a = rw (reverse-cons (p, s) m) (
      IsDescending-append (reverse m) p s (reverse-IsDescending m a.1)
        (All-reverse (λ e. p ≺ e.0) m a.0))

  All-levels :
      (P : D → Type 0) (n : ℕ) (m : PriceMap D)
      → All (λ e. P e.0) m
      → All (λ (l : Level D). P l.price) (map level (take n m))
  All-levels P zero m a = tt
  All-levels P (suc n) [] a = tt
  All-levels P (suc n) (e ∷ m) a = (a.0, All-levels P n m a.1)

  asks-IsBestFirst :
      (n : ℕ) (m : PriceMap D) → IsAscending m → IsBestFirst ask (map level (take n m))
  asks-IsBestFirst zero m a = tt
  asks-IsBestFirst (suc n) [] a = tt
  asks-IsBestFirst (suc n) ((p, s) ∷ m) a =
      (All-levels (λ q. p ≺ q) n m a.0, asks-IsBestFirst n m a.1)

  bids-IsBestFirst :
      (n : ℕ) (m : PriceMap D) → IsDescending m → IsBestFirst bid (map level (take n m))
  bids-IsBestFirst zero m a = tt
  bids-IsBestFirst (suc n) [] a = tt
  bids-IsBestFirst (suc n) ((p, s) ∷ m) a =
      (All-levels (λ q. q ≺ p) n m a.0, bids-IsBestFirst n m a.1)

  -- Of a valid book `top_n` lists either side best price first, and its head is what `best_bid`
  -- and `best_ask` return, for every n above zero.
  pub top_n-IsBestFirst :
      (b : OrderBook D) (n : ℕ)
      → IsValid b.inner
      → IsBestFirst bid (top_n b bid n)
        × IsBestFirst ask (top_n b ask n)
        × (head? (top_n b bid (suc n)) ≡ best_bid b)
        × (head? (top_n b ask (suc n)) ≡ best_ask b)
  unfolding top_n best_bid best_ask
  top_n-IsBestFirst b n v = (
    bids-IsBestFirst n (reverse b.inner.bids) (reverse-IsDescending b.inner.bids v.bids_valid.0),
    asks-IsBestFirst n b.inner.asks v.asks_valid.0,
    head-take (reverse b.inner.bids),
    head-take b.inner.asks,
  )
    where
      head-take : (m : PriceMap D) → head? (map level (take (suc n) m)) ≡ Option.map level (head? m)
      head-take [] = refl
      head-take (e ∷ m) = refl
