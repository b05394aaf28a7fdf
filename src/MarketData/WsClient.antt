-- ===== src/MarketData/WsClient.antt =====
-- ws_client.rs, `run_ws_with_reconnect`. What the websocket yields is an argument: for each attempt
-- to connect a failure, or the messages read until the stream ends; the jitter's random numbers are
-- another. What the client does is the list of its actions. It never returns: the actions are those
-- of its first attempts.
mod Tests
use native.Mathlib.Nat.{pow-succ'}
use arb_core.Common.{
  ℕ, suc, ◌+◌, ◌*◌, ◌^◌, ◌%◌, ◌≤◌, ◌<◌, ◌≡◌, refl, sym, ap, ◌∙◌, min, List, [], ◌∷◌, ◌++◌, String,
  arith,
}

pub data WsMessage : Type 0 where
  text : String → WsMessage
  ping : List ℕ → WsMessage
  binary pong close failure other : WsMessage

pub data WsAttempt : Type 0 where
  refused : WsAttempt
  connected : List WsMessage → WsAttempt

-- a text handed to `on_text`, a pong sent, a sleep before the next attempt
pub data Action : Type 0 where
  hand_over : String → Action
  send_pong : List ℕ → Action
  sleep : ℕ → Action

-- the loop over the messages of one connection
unfoldable pub read_ws : List WsMessage → List Action
read_ws [] = []
read_ws (text txt ∷ rest) = hand_over txt ∷ read_ws rest
read_ws (binary ∷ rest) = read_ws rest
read_ws (ping payload ∷ rest) = send_pong payload ∷ read_ws rest
read_ws (pong ∷ rest) = read_ws rest
read_ws (close ∷ rest) = []
read_ws (failure ∷ rest) = []
read_ws (other ∷ rest) = read_ws rest

abbrev pub after_ws_attempt : WsAttempt → ℕ → List Action × ℕ
after_ws_attempt refused backoff_ms = ([], backoff_ms)
after_ws_attempt (connected messages) backoff_ms = (read_ws messages, 100)

-- the loop over the attempts, from attempt i on
unfoldable pub run_attempts : ℕ → (ℕ → ℕ) → ℕ → List WsAttempt → List Action
unfolding read_ws
run_attempts i random backoff_ms [] = []
run_attempts i random backoff_ms (a ∷ rest) =
    let (actions, backoff_ms') = after_ws_attempt a backoff_ms in
    actions
    ++ (sleep (backoff_ms' + random i % 100)
        ∷ run_attempts (i + 1) random (min (backoff_ms' * 2) 10000) rest)

unfoldable pub run_ws_with_reconnect : (ℕ → ℕ) → List WsAttempt → List Action
unfolding run_attempts
run_ws_with_reconnect random attempts = run_attempts 0 random 100 attempts

-- the messages that are read: those before the first close or error
abbrev pub heard : List WsMessage → List WsMessage
heard [] = []
heard (close ∷ rest) = []
heard (failure ∷ rest) = []
heard (text txt ∷ rest) = text txt ∷ heard rest
heard (binary ∷ rest) = binary ∷ heard rest
heard (ping payload ∷ rest) = ping payload ∷ heard rest
heard (pong ∷ rest) = pong ∷ heard rest
heard (other ∷ rest) = other ∷ heard rest

abbrev pub all_heard : List WsAttempt → List WsMessage
all_heard [] = []
all_heard (refused ∷ rest) = all_heard rest
all_heard (connected messages ∷ rest) = heard messages ++ all_heard rest

-- what was read and is answered
abbrev pub answered : List WsMessage → List Action
answered [] = []
answered (text txt ∷ rest) = hand_over txt ∷ answered rest
answered (ping payload ∷ rest) = send_pong payload ∷ answered rest
answered (_ ∷ rest) = answered rest

abbrev pub awake : List Action → List Action
awake [] = []
awake (sleep ms ∷ rest) = awake rest
awake (a ∷ rest) = a ∷ awake rest

abbrev pub sleeps : List Action → List ℕ
sleeps [] = []
sleeps (sleep ms ∷ rest) = ms ∷ sleeps rest
sleeps (a ∷ rest) = sleeps rest

-- the delay after k attempts since the last connection, without the jitter
abbrev pub delay : ℕ → ℕ
delay k = min (100 * 2 ^ k) 10000

-- each sleep beside its attempt: the delay and a jitter below 100
abbrev pub IsSchedule : ℕ → List WsAttempt → List ℕ → Type 0
IsSchedule k [] [] = Unit
IsSchedule k (refused ∷ rest) (ms ∷ more) =
    (delay k ≤ ms) × (ms < delay k + 100) × IsSchedule (suc k) rest more
IsSchedule k (connected messages ∷ rest) (ms ∷ more) =
    (100 ≤ ms) × (ms < 200) × IsSchedule 1 rest more
IsSchedule k _ _ = ⊥

read_ws-awake :
    (messages : List WsMessage) (rest : List Action)
    → (awake (read_ws messages ++ rest) ≡ answered (heard messages) ++ awake rest)
      × (sleeps (read_ws messages ++ rest) ≡ sleeps rest)
unfolding read_ws
read_ws-awake [] rest = (refl, refl)
read_ws-awake (text txt ∷ ms) rest =
    let (a, s) = read_ws-awake ms rest in (ap (λ xs. hand_over txt ∷ xs) a, s)
read_ws-awake (ping payload ∷ ms) rest =
    let (a, s) = read_ws-awake ms rest in (ap (λ xs. send_pong payload ∷ xs) a, s)
read_ws-awake (binary ∷ ms) rest = read_ws-awake ms rest
read_ws-awake (pong ∷ ms) rest = read_ws-awake ms rest
read_ws-awake (other ∷ ms) rest = read_ws-awake ms rest
read_ws-awake (close ∷ ms) rest = (refl, refl)
read_ws-awake (failure ∷ ms) rest = (refl, refl)

answered-append : (xs ys : List WsMessage) → answered (xs ++ ys) ≡ answered xs ++ answered ys
answered-append [] ys = refl
answered-append (text txt ∷ xs) ys = ap (λ zs. hand_over txt ∷ zs) (answered-append xs ys)
answered-append (ping payload ∷ xs) ys = ap (λ zs. send_pong payload ∷ zs) (answered-append xs ys)
answered-append (binary ∷ xs) ys = answered-append xs ys
answered-append (pong ∷ xs) ys = answered-append xs ys
answered-append (other ∷ xs) ys = answered-append xs ys
answered-append (close ∷ xs) ys = answered-append xs ys
answered-append (failure ∷ xs) ys = answered-append xs ys

run_attempts-awake :
    (i : ℕ) (random : ℕ → ℕ) (backoff_ms : ℕ) (attempts : List WsAttempt)
    → awake (run_attempts i random backoff_ms attempts) ≡ answered (all_heard attempts)
unfolding run_attempts
run_attempts-awake i random backoff_ms [] = refl
run_attempts-awake i random backoff_ms (refused ∷ rest) = run_attempts-awake (i + 1) random _ rest
run_attempts-awake i random backoff_ms (connected messages ∷ rest) =
    (read_ws-awake messages _).0
    ∙ ap (λ xs. answered (heard messages) ++ xs) (run_attempts-awake (i + 1) random _ rest)
    ∙ sym (answered-append (heard messages) (all_heard rest))

delay-suc : (k : ℕ) → min (delay k * 2) 10000 ≡ delay (suc k)
delay-suc k = let p : 2 ^ suc k ≡ 2 * 2 ^ k = pow-succ' 2 k in omega arith

run_attempts-IsSchedule :
    (i : ℕ) (random : ℕ → ℕ) (k backoff_ms : ℕ) (attempts : List WsAttempt)
    → backoff_ms ≡ delay k
    → IsSchedule k attempts (sleeps (run_attempts i random backoff_ms attempts))
unfolding run_attempts
run_attempts-IsSchedule i random k backoff_ms [] h = tt
run_attempts-IsSchedule i random k backoff_ms (refused ∷ rest) h = (
  omega arith,
  omega arith,
  run_attempts-IsSchedule (i + 1) random (suc k) _ rest
      (ap (λ b. min (b * 2) 10000) h ∙ delay-suc k),
)
run_attempts-IsSchedule i random k backoff_ms (connected messages ∷ rest) h =
    rw (read_ws-awake messages _).1
      (omega arith, omega arith, run_attempts-IsSchedule (i + 1) random 1 _ rest refl)

-- The client hands over each text and answers each ping, in the order in which they are read and
-- nothing else, up to the first close or error of each connection. It sleeps once for each attempt:
-- after k attempts since the last connection for 100 * 2 ^ k ms, but 10000 at most, and a jitter
-- below 100 ms; so for less than 200 ms after a connection.
pub run_ws_with_reconnect_lem :
    (random : ℕ → ℕ) (attempts : List WsAttempt)
    → let actions = run_ws_with_reconnect random attempts in
      (awake actions ≡ answered (all_heard attempts)) × IsSchedule 0 attempts (sleeps actions)
unfolding run_ws_with_reconnect
run_ws_with_reconnect_lem random attempts =
    (run_attempts-awake 0 random 100 attempts, run_attempts-IsSchedule 0 random 0 100 attempts refl)
