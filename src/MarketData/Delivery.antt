-- ===== src/MarketData/Delivery.antt =====
-- What a subscriber receives of the views of the ticks.
use mathlib.Core.List.{append-nil, append_assoc}
use arb_core.Common.{
  ℕ, zero, suc, ◌≤◌, ◌≡◌, ◌⊎◌, inl, inr, refl, sym, ap, ◌∙◌, Bool, true, false, Option, none, some,
  List, [], ◌∷◌, ◌++◌, arith, if◌then◌else◌, length, take, drop, take-append-drop, length-drop,
  length-append, Option-cases,
}
use arb_core.Orderbook.{OrderbookSnapshot}
use arb_core.MarketData.Triangle.{TriView}
use arb_core.MarketData.Subscription.{
  Triangle, TriSubscription, Happening, tick, receive, hang_up, shut_down, capacity, subscribe,
  emit, view_of, emit_view, on_happening, run_subscription,
}

-- The first list is the second with some members left out.
pub data IsPartOf {A : Type 0} : List A → List A → Type 0 where
  nothing : IsPartOf [] []
  leave_out : (x : A) {xs ys : List A} → IsPartOf xs ys → IsPartOf xs (x ∷ ys)
  keep : (x : A) {xs ys : List A} → IsPartOf xs ys → IsPartOf (x ∷ xs) (x ∷ ys)

IsPartOf-append :
    {A : Type 0} {xs xs' ys ys' : List A}
    → IsPartOf xs ys
    → IsPartOf xs' ys'
    → IsPartOf (xs ++ xs') (ys ++ ys')
IsPartOf-append nothing q = q
IsPartOf-append (leave_out x p) q = leave_out x (IsPartOf-append p q)
IsPartOf-append (keep x p) q = keep x (IsPartOf-append p q)

module _ {D : Type 0} (t : Triangle) where
  abbrev as_list : Option (TriView D) → List (TriView D)
  as_list none = []
  as_list (some tv) = tv ∷ []

  -- the views that the ticks made until the shutdown
  abbrev pub offered : Bool → List (Happening D) → List (TriView D)
  offered running [] = []
  offered running (tick a b c taken ∷ hs) =
      as_list (if running then view_of t a b c else none) ++ offered running hs
  offered running (receive ∷ hs) = offered running hs
  offered running (hang_up ∷ hs) = offered running hs
  offered running (shut_down ∷ hs) = offered false hs

  -- what has been sent: received, or still in the channel
  abbrev pub sent : TriSubscription D → List (TriView D)
  sent s = s.received ++ s.queue

  -- One more view was sent, or none, and the channel is not overfull.
  record Extends (s : TriSubscription D) (view : Option (TriView D)) (s' : TriSubscription D)
      : Type 0 where
    more : (sent s' ≡ sent s) ⊎ (sent s' ≡ sent s ++ as_list view)
    room : length s.queue ≤ capacity → length s'.queue ≤ capacity

  -- taking out and putting in leave the order as it is
  moved :
      (n : ℕ) (received queue : List (TriView D)) (tv : TriView D)
      → (received ++ take n queue) ++ (drop n queue ++ (tv ∷ [])) ≡ (received ++ queue) ++ (tv ∷ [])
  moved n received queue tv =
      append_assoc received (take n queue) (drop n queue ++ (tv ∷ []))
      ∙ ap (λ q. received ++ q) (sym (append_assoc (take n queue) (drop n queue) (tv ∷ [])))
      ∙ ap (λ q. received ++ (q ++ (tv ∷ []))) (take-append-drop n queue)
      ∙ sym (append_assoc received queue (tv ∷ []))

  emit-Extends :
      (s : TriSubscription D) (tv : TriView D) (taken : ℕ) → Extends s (some tv) (emit s tv taken)
  unfolding emit
  emit-Extends s tv zero =
      ground (arith, append_assoc s.received s.queue (tv ∷ []), length-append s.queue (tv ∷ []))
  emit-Extends s tv (suc n) = ground (
    arith,
    append_assoc s.received s.queue (tv ∷ []),
    moved (suc n) s.received s.queue tv,
    length-append s.queue (tv ∷ []),
    length-append (drop (suc n) s.queue) (tv ∷ []),
    length-drop (suc n) s.queue,
  )

  emit_view-Extends :
      (s : TriSubscription D) (view : Option (TriView D)) (taken : ℕ)
      → Extends s view (emit_view s view taken)
  emit_view-Extends s none taken = ground arith
  emit_view-Extends s (some tv) taken = emit-Extends s tv taken

  take_one-Extends : (s : TriSubscription D) → Extends s none (on_happening t s receive)
  unfolding on_happening
  take_one-Extends s = go s.queue refl
    where
      go : (q : List (TriView D)) → s.queue ≡ q → Extends s none (on_happening t s receive)
      go [] e = ground (arith, append_assoc s.received [] [])
      go (x ∷ q) e = ground (arith, append_assoc s.received (x ∷ []) q)

  tick-Extends :
      (s : TriSubscription D) (view : Option (TriView D)) (taken : ℕ) (running : Bool)
      → Extends s (if running then view else none) (if running then emit_view s view taken else s)
  tick-Extends s view taken true = emit_view-Extends s view taken
  tick-Extends s view taken false = record { more = inl refl; room = λ h. h }

  -- only a shutdown stops the task
  tick-running :
      (s : TriSubscription D) (a b c : Option (OrderbookSnapshot D)) (taken : ℕ)
      → (on_happening t s (tick a b c taken)).running ≡ s.running
  unfolding on_happening
  tick-running s a b c zero = ground (arith, Option-cases (view_of t a b c))
  tick-running s a b c (suc n) = ground (arith, Option-cases (view_of t a b c))

  receive-running : (s : TriSubscription D) → (on_happening t s receive).running ≡ s.running
  unfolding on_happening
  receive-running s = ground arith

  skip_one :
      (view : Option (TriView D)) {xs ys : List (TriView D)}
      → IsPartOf xs ys
      → IsPartOf xs (as_list view ++ ys)
  skip_one none p = p
  skip_one (some tv) p = leave_out tv p

  keep_one :
      (view : Option (TriView D)) {xs ys : List (TriView D)}
      → IsPartOf xs ys
      → IsPartOf (as_list view ++ xs) (as_list view ++ ys)
  keep_one none p = p
  keep_one (some tv) p = keep tv p

  -- What a run sends: views that were offered, in their order, without one twice.
  pub record IsFaithful (s : TriSubscription D) (hs : List (Happening D)) (s' : TriSubscription D)
      : Type 0 where
    pub news : List (TriView D)
    pub in_order : sent s' ≡ sent s ++ news
    pub of_offered : IsPartOf news (offered s.running hs)
    pub bounded : length s'.queue ≤ capacity

  Extends-IsFaithful :
      (s s₁ s' : TriSubscription D) (view : Option (TriView D)) (hs hs' : List (Happening D))
      → Extends s view s₁
      → offered s.running hs' ≡ as_list view ++ offered s₁.running hs
      → IsFaithful s₁ hs s'
      → IsFaithful s hs' s'
  Extends-IsFaithful s s₁ s' view hs hs' x off v = elim x.more [
    | inl same ↦ record {
      news = v.news;
      in_order = v.in_order ∙ ap (λ xs. xs ++ v.news) same;
      of_offered = rw off (skip_one view v.of_offered);
      bounded = v.bounded;
    }
    | inr more ↦ record {
      news = as_list view ++ v.news;
      in_order =
          v.in_order ∙ ap (λ xs. xs ++ v.news) more ∙ append_assoc (sent s) (as_list view) v.news;
      of_offered = rw off (keep_one view v.of_offered);
      bounded = v.bounded;
    }
  ]

  run-IsFaithful :
      (s : TriSubscription D) (hs : List (Happening D))
      → length s.queue ≤ capacity
      → IsFaithful s hs (run_subscription t s hs)
  unfolding run_subscription
  run-IsFaithful s [] l = record {
    news = [];
    in_order = sym (append-nil (sent s));
    of_offered = nothing;
    bounded = l;
  }
  run-IsFaithful s (tick a b c taken ∷ hs) l =
      let s₁ = on_happening t s (tick a b c taken) in
      let x = tick-Extends s (view_of t a b c) taken s.running in
      Extends-IsFaithful s s₁ _ _ hs (tick a b c taken ∷ hs) x
        (ap (λ r. as_list (if s.running then view_of t a b c else none) ++ offered r hs)
          (sym (tick-running s a b c taken)))
        (run-IsFaithful s₁ hs (x.room l))
  run-IsFaithful s (receive ∷ hs) l =
      let s₁ = on_happening t s receive in
      let x = take_one-Extends s in
      Extends-IsFaithful s s₁ _ none hs (receive ∷ hs) x
        (ap (λ r. offered r hs) (sym (receive-running s))) (run-IsFaithful s₁ hs (x.room l))
  run-IsFaithful s (hang_up ∷ hs) l =
      Extends-IsFaithful s (on_happening t s hang_up) _ none hs (hang_up ∷ hs)
        (record { more = inl refl; room = λ h. h }) refl
        (run-IsFaithful (on_happening t s hang_up) hs l)
  run-IsFaithful s (shut_down ∷ hs) l =
      Extends-IsFaithful s (on_happening t s shut_down) _ none hs (shut_down ∷ hs)
        (record { more = inl refl; room = λ h. h }) refl
        (run-IsFaithful (on_happening t s shut_down) hs l)

  -- Whatever happens to a subscription, what it has sent is a part of the views that its ticks made
  -- until the shutdown, in their order and none twice, and the channel never holds more than 64.
  pub run_subscription-IsFaithful :
      (hs : List (Happening D)) → IsFaithful subscribe hs (run_subscription t subscribe hs)
  unfolding subscribe
  run_subscription-IsFaithful hs = run-IsFaithful subscribe hs (omega arith)
