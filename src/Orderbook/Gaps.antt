-- ===== src/Orderbook/Gaps.antt =====
-- Which deltas the two sequence checks accept, and what a refusal leaves behind.
use arb_core.Common.{
  refl, ℕ, ◌+◌, ◌<◌, ◌≤◌, ◌≡◌, ◌⊎◌, true, false, Option, none, some, inl, inr, Bool-cases, ltb,
  arith, ok, err,
}
use arb_core.Decimal.{Decimal}
use arb_core.Orderbook.Sequence.{mismatch, too_far, sequence_gap}
use arb_core.Orderbook.{
  BookResult, OrderbookDelta, OrderBook, sequence_error, apply_delta,
  apply_delta_with_gap_tolerance, changed,
}

-- The check names the two numbers it compared, and fails only on known ones.
abbrev pub IsApart : ℕ → Option ℕ → Option ℕ → ℕ → ℕ → Type 0
IsApart max_gap last prev e g =
    (last ≡ some e) × (prev ≡ some g) × ((e + max_gap < g) ⊎ (g + max_gap < e))

-- Two known numbers are no further apart than that.
abbrev pub IsNear : ℕ → Option ℕ → Option ℕ → Type 0
IsNear max_gap (some e) (some g) = (e ≤ g + max_gap) × (g ≤ e + max_gap)
IsNear max_gap _ _ = Unit

too_far-cases :
    (max_gap : ℕ) (last prev : Option ℕ)
    → ((e g : ℕ) × (too_far max_gap last prev ≡ some (e, g)) × IsApart max_gap last prev e g)
      ⊎ ((too_far max_gap last prev ≡ none) × IsNear max_gap last prev)
unfolding too_far sequence_gap
too_far-cases max_gap none none = inr (refl, tt)
too_far-cases max_gap none (some q) = inr (refl, tt)
too_far-cases max_gap (some p) none = inr (refl, tt)
too_far-cases max_gap (some p) (some q) = elim (Bool-cases (ltb max_gap (sequence_gap q p))) [
  | inl far ↦ inl (p, q, ground arith, (refl, refl, ground arith))
  | inr near ↦ inr (ground arith, (ground arith, ground arith))
]

pub too_far_zero : (last prev : Option ℕ) → too_far 0 last prev ≡ mismatch last prev
unfolding too_far mismatch
too_far_zero none none = refl
too_far_zero none (some q) = refl
too_far_zero (some p) none = refl
too_far_zero (some p) (some q) = ground arith

module _ {D : Type 0} ⦃d : Decimal D⦄ where
  -- A tolerance of zero is the strict check: for every book and delta both methods return the same
  -- result and leave the same sides, sequence and time.
  pub tolerance_zero :
      (b : OrderBook D) (delta : OrderbookDelta D) (now : ℕ)
      → ((apply_delta_with_gap_tolerance b delta 0 now).1 ≡ (apply_delta b delta now).1)
        × ((apply_delta_with_gap_tolerance b delta 0 now).0.inner
            ≡ (apply_delta b delta now).0.inner)
  unfolding apply_delta apply_delta_with_gap_tolerance
  tolerance_zero b delta now = ground (arith, too_far_zero b.inner.last_seq delta.prev_sequence)

  -- What a refusal returns and leaves behind.
  pub record IsRefused (b : OrderBook D) (delta : OrderbookDelta D) (max_gap : ℕ) (r : BookResult D)
      : Type 0 where
    pub expected : ℕ
    pub got : ℕ
    pub apart : IsApart max_gap b.inner.last_seq delta.prev_sequence expected got
    pub told : r.1 ≡ err (sequence_error expected got)
    pub left : r.0 ≡ record b { resync_required = true }

  -- What an acceptance does.
  pub record IsAccepted (b : OrderBook D) (delta : OrderbookDelta D) (max_gap now : ℕ)
      (r : BookResult D) : Type 0 where
    pub near : IsNear max_gap b.inner.last_seq delta.prev_sequence
    pub told : r.1 ≡ ok tt
    pub moved : r.0.inner ≡ changed b.inner delta now
    pub in_sync : r.0.resync_required ≡ false

  -- The tolerant method ends in one of two ways. If both sequences are known and differ by more than
  -- the tolerance, it fails with these two, and changes nothing but the flag, which asks for a
  -- resync. If one is unknown or they differ by no more, it returns without an error, with the delta
  -- applied and the flag cleared.
  pub apply_delta_with_gap_tolerance_lem :
      (b : OrderBook D) (delta : OrderbookDelta D) (max_gap now : ℕ)
      → let r = apply_delta_with_gap_tolerance b delta max_gap now in
        IsRefused b delta max_gap r ⊎ IsAccepted b delta max_gap now r
  unfolding apply_delta_with_gap_tolerance
  apply_delta_with_gap_tolerance_lem b delta max_gap now =
      elim (too_far-cases max_gap b.inner.last_seq delta.prev_sequence) [
        | inl (e, g, far, apart) ↦ inl (
            rw (far, apply_delta_with_gap_tolerance)
              (record { expected = e; got = g; apart = apart; told = refl; left = refl }))
        | inr (none_, near) ↦ inr (
            rw (none_, apply_delta_with_gap_tolerance)
              (record { near = near; told = refl; moved = refl; in_sync = refl }))
      ]

  -- A larger tolerance accepts what a smaller one accepts, with the same new book.
  pub tolerance_mono :
      (b : OrderBook D) (delta : OrderbookDelta D) (small large now : ℕ)
      → small ≤ large
      → (apply_delta_with_gap_tolerance b delta small now).1 ≡ ok tt
      → apply_delta_with_gap_tolerance b delta large now
        ≡ apply_delta_with_gap_tolerance b delta small now
  unfolding apply_delta_with_gap_tolerance too_far
  tolerance_mono b delta small large now h e = ground arith

  -- Within the tolerance a delta that is older than the book is applied as well, and the book takes
  -- over its sequence, so that the sequence of a book can go back.
  pub stale_accepted :
      (b : OrderBook D) (delta : OrderbookDelta D) (max_gap now prev old s : ℕ)
      → b.inner.last_seq ≡ some prev
      → delta.prev_sequence ≡ some old
      → delta.sequence ≡ some s
      → old ≤ prev
      → prev ≤ old + max_gap
      → ((apply_delta_with_gap_tolerance b delta max_gap now).1 ≡ ok tt)
        × ((apply_delta_with_gap_tolerance b delta max_gap now).0.inner.last_seq ≡ some s)
  unfolding apply_delta_with_gap_tolerance too_far changed
  stale_accepted b delta max_gap now prev old s l q t h k = ground arith
