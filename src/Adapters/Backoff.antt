-- ===== src/Adapters/Backoff.antt =====
-- How long the task of a symbol waits before it connects again.
use arb_core.Common.{ℕ, ◌+◌, ◌*◌, ◌≤◌, ◌<◌, min, List, [], ◌∷◌, arith}
use arb_core.Adapters.Stream.{Attempt, refused, connected, waits, connect_waits}

-- each wait beside its attempt: within the bounds, and short after a connection
abbrev pub AreBounded : List Attempt → List ℕ → Type 0
AreBounded [] [] = Unit
AreBounded (refused ∷ rest) (w ∷ ws) = (100 ≤ w) × (w < 10100) × AreBounded rest ws
AreBounded (connected messages ∷ rest) (w ∷ ws) = (100 ≤ w) × (w < 200) × AreBounded rest ws
AreBounded _ _ = ⊥

waits-AreBounded :
    (i : ℕ) (random : ℕ → ℕ) (backoff_ms : ℕ) (attempts : List Attempt)
    → 100 ≤ backoff_ms
    → backoff_ms ≤ 10000
    → AreBounded attempts (waits i random backoff_ms attempts)
unfolding waits
waits-AreBounded i random backoff_ms [] low high = tt
waits-AreBounded i random backoff_ms (refused ∷ rest) low high = (
  omega arith,
  omega arith,
  waits-AreBounded (i + 1) random (min (backoff_ms * 2) 10000) rest (omega arith) (omega arith),
)
waits-AreBounded i random backoff_ms (connected messages ∷ rest) low high = (
  omega arith,
  omega arith,
  waits-AreBounded (i + 1) random (min (100 * 2) 10000) rest (omega arith) (omega arith),
)

-- There is one wait for each attempt to connect. It is at least 100 ms, less than 10100 ms, and less
-- than 200 ms after an attempt that succeeded, whatever the jitter.
pub connect_waits-AreBounded :
    (random : ℕ → ℕ) (attempts : List Attempt) → AreBounded attempts (connect_waits random attempts)
unfolding connect_waits
connect_waits-AreBounded random attempts =
    waits-AreBounded 0 random 100 attempts (omega arith) (omega arith)
