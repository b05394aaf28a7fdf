-- ===== src/MarketData/Subscription.antt =====
-- triview.rs, `subscribe_triangle`: the task of one subscription and its bounded channel of views.
-- What happens is an argument: a tick with the replies of the three fetches (`none` is an error) and
-- the number of views that the receiver takes while a full channel is waited on, at most 100 ms; the
-- receiver taking a view, being dropped, or asking to shut down. The log lines are left out.
use arb_core.Common.{
  ℕ, zero, suc, Bool, true, false, Option, none, some, List, [], ◌∷◌, ◌++◌, String, if◌then◌else◌,
  ltb, length, take, drop,
}
use arb_core.Orderbook.{OrderbookSnapshot}
use arb_core.MarketData.Triangle.{TriView, build_triview_from_snapshots}

pub record Triangle : Type 0 where
  pub sym_ab : String
  pub sym_bc : String
  pub sym_ac : String
  pub top_n : ℕ

-- `received` is what the receiver has taken out so far.
pub record TriSubscription (D : Type 0) : Type 0 where
  pub queue : List (TriView D)
  pub received : List (TriView D)
  pub receiving : Bool
  pub running : Bool

pub data Happening (D : Type 0) : Type 0 where
  tick : (a b c : Option (OrderbookSnapshot D)) (taken : ℕ) → Happening D
  receive hang_up shut_down : Happening D

abbrev pub capacity : ℕ
capacity = 64

module _ {D : Type 0} where
  unfoldable pub subscribe : TriSubscription D
  subscribe = record { queue = []; received = []; receiving = true; running = true }

  abbrev enqueue : TriSubscription D → TriView D → TriSubscription D
  enqueue s tv = record s { queue = s.queue ++ (tv ∷ []) }

  -- the send with a timeout, on a full channel
  unfoldable pub wait_send : TriSubscription D → TriView D → ℕ → TriSubscription D
  wait_send s tv zero = s
  wait_send s tv (suc n) =
      enqueue
        (record s { received = s.received ++ take (suc n) s.queue; queue = drop (suc n) s.queue })
        tv

  unfoldable pub emit : TriSubscription D → TriView D → ℕ → TriSubscription D
  unfolding wait_send
  emit s tv taken =
      if s.receiving
      then (if ltb (length s.queue) capacity then enqueue s tv else wait_send s tv taken)
      else s

  -- the view of a tick, if all three snapshots came
  unfoldable pub view_of :
      Triangle
      → Option (OrderbookSnapshot D)
      → Option (OrderbookSnapshot D)
      → Option (OrderbookSnapshot D)
      → Option (TriView D)
  view_of t (some a) (some b) (some c) =
      some (build_triview_from_snapshots t.sym_ab a t.sym_bc b t.sym_ac c t.top_n)
  view_of t _ _ _ = none

  abbrev pub emit_view : TriSubscription D → Option (TriView D) → ℕ → TriSubscription D
  emit_view s none taken = s
  emit_view s (some tv) taken = emit s tv taken

  abbrev take_one : TriSubscription D → List (TriView D) → TriSubscription D
  take_one s [] = s
  take_one s (tv ∷ queue) = record s { received = s.received ++ (tv ∷ []); queue = queue }

  unfoldable pub on_happening : Triangle → TriSubscription D → Happening D → TriSubscription D
  unfolding emit view_of
  on_happening t s (tick a b c taken) = if s.running then emit_view s (view_of t a b c) taken else s
  on_happening t s receive = if s.receiving then take_one s s.queue else s
  on_happening t s hang_up = record s { receiving = false }
  on_happening t s shut_down = record s { running = false }

  unfoldable pub run_subscription :
      Triangle → TriSubscription D → List (Happening D) → TriSubscription D
  unfolding on_happening
  run_subscription t s [] = s
  run_subscription t s (h ∷ hs) = run_subscription t (on_happening t s h) hs
