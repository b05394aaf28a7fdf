-- ===== src/Execution/Signalled.antt =====
-- Which workers the cancel requests reach.
use arb_core.Common.{
  ℕ, suc, ◌+◌, ◌≤◌, ◌≡◌, refl, some, List, [], ◌∷◌, ◌++◌, String, arith, ◌==◌, str_eq,
  if◌then◌else◌, inl, inr, Option-cases, Bool-cases,
}
use arb_core.Common.Dict.{Dict, find, put, delete}
use arb_core.Strategy.Engine.{CancelRequest}
use arb_core.Execution.Mock.{
  MockExecution, MockEvent, start_of, finish_of, cancel_of, start_plan, on_cancel, finish_plan,
  run_mock,
}

abbrev same : ℕ → ℕ → ℕ
same w x = if w == x then 1 else 0

-- how often a worker was signalled
abbrev pub times : ℕ → List ℕ → ℕ
times w [] = 0
times w (x ∷ xs) = same w x + times w xs

-- how many senders of a worker the map holds
abbrev held : ℕ → Dict ℕ → ℕ
held w [] = 0
held w ((key, x) ∷ rest) = same w x + held w rest

times-snoc : (w x : ℕ) (xs : List ℕ) → times w (xs ++ (x ∷ [])) ≡ times w xs + same w x
times-snoc w x [] = omega arith
times-snoc w x (y ∷ ys) = let ih = times-snoc w x ys in ground arith

held-put : (w : ℕ) (m : Dict ℕ) (key : String) (x : ℕ) → held w (put m key x) ≤ held w m + same w x
unfolding put
held-put w [] key x = omega arith
held-put w ((key', y) ∷ rest) key x = let ih = held-put w rest key x in ground arith

held-delete : (w : ℕ) (m : Dict ℕ) (key : String) → held w (delete m key) ≤ held w m
unfolding delete
held-delete w [] key = omega arith
held-delete w ((key', y) ∷ rest) key = let ih = held-delete w rest key in ground arith

held-found :
    (w : ℕ) (m : Dict ℕ) (key : String) (x : ℕ)
    → find m key ≡ some x
    → held w (delete m key) + same w x ≤ held w m
unfolding delete find
held-found w [] key x h = absurd (ground arith)
held-found w ((key', y) ∷ rest) key x h =
    let less = held-delete w rest key in
    elim (Bool-cases (str_eq key key')) [
      | inl t ↦ ground (arith, less)
      | inr f ↦ let ih = held-found w rest key x (ground arith) in ground (arith, ih)
    ]

-- the senders of a worker in the map and its signals
abbrev total : ℕ → MockExecution → ℕ
total w m = held w m.cancel_map + times w m.signalled

-- Each worker numbered below n has one at most, and the others have none.
abbrev IsOnce : ℕ → MockExecution → Type 0
IsOnce n m = (w : ℕ) → (total w m ≤ 1) × (n ≤ w → total w m ≡ 0)

start_plan-IsOnce :
    (n : ℕ) (m : MockExecution) (plan_id : String)
    → IsOnce n m
    → IsOnce (suc n) (start_plan m plan_id n)
unfolding start_plan
start_plan-IsOnce n m plan_id v w =
    let (one, fresh) = v w in let more = held-put w m.cancel_map plan_id n in ground arith

on_cancel-IsOnce :
    (n : ℕ) (m : MockExecution) (request : CancelRequest)
    → IsOnce n m
    → IsOnce n (on_cancel m request)
unfolding on_cancel
on_cancel-IsOnce n m request v w =
    let (one, fresh) = v w in
    elim (Option-cases (find m.cancel_map request.plan_id)) [
      | inl gone ↦ ground arith
      | inr (x, at) ↦
          let less = held-found w m.cancel_map request.plan_id x at in
          let more = times-snoc w x m.signalled in ground arith
    ]

finish_plan-IsOnce :
    (n : ℕ) (m : MockExecution) (plan_id : String) → IsOnce n m → IsOnce n (finish_plan m plan_id)
unfolding finish_plan
finish_plan-IsOnce n m plan_id v w =
    let (one, fresh) = v w in
    let less = held-delete w m.cancel_map plan_id in
    (omega arith, λ h. let z = fresh h in omega arith)

run_mock-IsOnce :
    (n : ℕ) (m : MockExecution) (events : List MockEvent) (w : ℕ)
    → IsOnce n m
    → times w (run_mock n m events).signalled ≤ 1
unfolding run_mock
run_mock-IsOnce n m [] w v = let (one, fresh) = v w in omega arith
run_mock-IsOnce n m (start_of plan_id ∷ events) w v =
    run_mock-IsOnce (suc n) (start_plan m plan_id n) events w (start_plan-IsOnce n m plan_id v)
run_mock-IsOnce n m (finish_of plan_id ∷ events) w v =
    run_mock-IsOnce n (finish_plan m plan_id) events w (finish_plan-IsOnce n m plan_id v)
run_mock-IsOnce n m (cancel_of request ∷ events) w v =
    run_mock-IsOnce n (on_cancel m request) events w (on_cancel-IsOnce n m request v)

-- Whatever plans start and finish and whatever cancel requests come, in any order, no worker is
-- signalled twice: also if two plans have one identity, or a request comes again.
pub run_mock-once :
    (events : List MockEvent) (w : ℕ)
    → times w (run_mock 0 (record { cancel_map = []; signalled = [] }) events).signalled ≤ 1
run_mock-once events w =
    run_mock-IsOnce 0 (record { cancel_map = []; signalled = [] }) events w
      (λ x. (omega arith, λ h. refl))
