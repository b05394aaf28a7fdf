-- ===== src/Orderbook/Sequence.antt =====
-- The sequence checks of `apply_delta` and `apply_delta_with_gap_tolerance`: the numbers of the
-- error, or `none` where the delta is accepted.
use arb_core.Common.{ℕ, ◌-◌, Option, none, some, ◌==◌, ltb, if◌then◌else◌}

-- last_seq, then the delta's prev_sequence
unfoldable pub mismatch : Option ℕ → Option ℕ → Option (ℕ × ℕ)
mismatch (some prev) (some d_prev) = if d_prev == prev then none else some (prev, d_prev)
mismatch _ _ = none

unfoldable pub sequence_gap : ℕ → ℕ → ℕ
sequence_gap d_prev prev = if ltb prev d_prev then d_prev - prev else prev - d_prev

unfoldable pub too_far : ℕ → Option ℕ → Option ℕ → Option (ℕ × ℕ)
unfolding sequence_gap
too_far max_gap (some prev) (some d_prev) =
    if d_prev == prev
    then none
    else (if ltb max_gap (sequence_gap d_prev prev) then some (prev, d_prev) else none)
too_far max_gap _ _ = none
