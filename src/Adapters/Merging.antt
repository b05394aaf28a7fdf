-- ===== src/Adapters/Merging.antt =====
-- The order of the updates that come out of `connect_ws`.
use arb_core.Common.{
  ◌≡◌, ◌≢◌, refl, sym, ◌∙◌, Bool, true, false, none, some, List, [], ◌∷◌, ◌++◌, String, Outcome, ok,
  err, panic, All, All-append, arith, str_eq, eq_iff, inl, inr, Bool-cases, bind-eq-ok, ◌>>=◌,
  if-elim,
}
use arb_core.Common.Dict.{Dict, find, IsMap}
use arb_core.MarketData.Wiring.{OrderbookUpdate}
use arb_core.MarketData.Live.{updates_of}
use arb_core.Adapters.Binance.{
  Text, AdapterError, BinanceDepthEvent, to_update_from_event, parse_levels,
}
use arb_core.Adapters.Stream.{
  Message, text, ping, close, failure, other, Attempt, refused, connected, reads_on, leaves, dies,
  Outgoing, send_update, on_message, and_then, read_messages, task_updates, Interleaves, both_empty,
  from_left, from_right, Merged, no_task, one_more,
}

module _ {D : Type 0} where
  abbrev AreFor : String → List (OrderbookUpdate D) → Type 0
  AreFor symbol = All λ u. u.symbol ≡ symbol

  updates_of-left :
      (symbol : String) {xs ys zs : List (OrderbookUpdate D)}
      → Interleaves xs ys zs
      → AreFor symbol xs
      → updates_of symbol ys ≡ []
      → updates_of symbol zs ≡ xs
  updates_of-left symbol both_empty own e = refl
  updates_of-left symbol (from_left {x} i) (here, own) e =
      let ih = updates_of-left symbol i own e in
      let same = (eq_iff symbol x.symbol).1 (sym here) in ground arith
  updates_of-left symbol (from_right {y} {xs} {ys} i) own e =
      elim (Bool-cases (str_eq symbol y.symbol)) [
        | inl mine ↦ absurd (ground arith)
        | inr alien ↦ let ih = updates_of-left symbol i own (ground arith) in ground arith
      ]

  updates_of-right :
      (symbol key : String) {xs ys zs : List (OrderbookUpdate D)}
      → Interleaves xs ys zs
      → AreFor key xs
      → symbol ≢ key
      → updates_of symbol zs ≡ updates_of symbol ys
  updates_of-right symbol key both_empty own n = refl
  updates_of-right symbol key (from_left {x} i) (here, own) n =
      let ih = updates_of-right symbol key i own n in
      let differ = eq_iff symbol x.symbol in ground arith
  updates_of-right symbol key (from_right {y} i) own n =
      let ih = updates_of-right symbol key i own n in ground arith

module _ {D : Type 0} (t : Text D) where
  -- The events among the messages are of this symbol.
  abbrev pub IsOwnMessage : String → Message → Type 0
  IsOwnMessage symbol (text (some e) single) = t.to_uppercase e.symbol ≡ symbol
  IsOwnMessage symbol (text none (some e)) = t.to_uppercase e.symbol ≡ symbol
  IsOwnMessage symbol _ = Unit

  abbrev pub IsOwnAttempt : String → Attempt → Type 0
  IsOwnAttempt symbol refused = Unit
  IsOwnAttempt symbol (connected messages) = All (IsOwnMessage symbol) messages

  to_update-symbol :
      (e : BinanceDepthEvent) (u : OrderbookUpdate D)
      → to_update_from_event t e ≡ ok u
      → u.symbol ≡ t.to_uppercase e.symbol
  unfolding to_update_from_event
  to_update-symbol e u h =
      let (bids, e', h') =
        bind-eq-ok (parse_levels t e.bids)
          (λ bids. parse_levels t e.asks >>= λ asks. ok (record {
            symbol = t.to_uppercase e.symbol;
            bids = bids;
            asks = asks;
            sequence = some e.final_update_id;
            is_snapshot = false;
          }))
          h in
      let (asks, e'', h'') =
        bind-eq-ok (parse_levels t e.asks)
          (λ asks. ok (record {
            symbol = t.to_uppercase e.symbol;
            bids = bids;
            asks = asks;
            sequence = some e.final_update_id;
            is_snapshot = false;
          }))
          h' in
      ground arith

  send_update-AreFor :
      (symbol : String) (open_ : Bool) (r : Outcome AdapterError (OrderbookUpdate D))
      → ((u : OrderbookUpdate D) → r ≡ ok u → u.symbol ≡ symbol)
      → AreFor symbol (send_update t open_ r).0
  send_update-AreFor symbol true (ok u) h = (h u refl, tt)
  send_update-AreFor symbol false (ok u) h = tt
  send_update-AreFor symbol open_ (err e) h = tt
  send_update-AreFor symbol open_ panic h = tt

  on_message-AreFor :
      (symbol : String) (open_ : Bool) (msg : Message)
      → IsOwnMessage symbol msg
      → AreFor symbol (on_message t open_ msg).0
  unfolding on_message
  on_message-AreFor symbol open_ (text (some e) single) own =
      send_update-AreFor symbol open_ (to_update_from_event t e)
        (λ u h. to_update-symbol e u h ∙ own)
  on_message-AreFor symbol open_ (text none (some e)) own =
      send_update-AreFor symbol open_ (to_update_from_event t e)
        (λ u h. to_update-symbol e u h ∙ own)
  on_message-AreFor symbol open_ (text none none) own = tt
  on_message-AreFor symbol open_ ping own = tt
  on_message-AreFor symbol open_ close own = tt
  on_message-AreFor symbol open_ failure own = tt
  on_message-AreFor symbol open_ other own = tt

  and_then-AreFor :
      (symbol : String) (out : Outgoing t) (later : List (OrderbookUpdate D) × Bool)
      → AreFor symbol out.0
      → AreFor symbol later.0
      → AreFor symbol (and_then t out later).0
  and_then-AreFor symbol (sent, reads_on) later p q = All-append _ sent later.0 p q
  and_then-AreFor symbol (sent, leaves) later p q = p
  and_then-AreFor symbol (sent, dies) later p q = p

  read_messages-AreFor :
      (symbol : String) (open_ : Bool) (messages : List Message)
      → All (IsOwnMessage symbol) messages
      → AreFor symbol (read_messages t open_ messages).0
  unfolding read_messages
  read_messages-AreFor symbol open_ [] own = tt
  read_messages-AreFor symbol open_ (msg ∷ rest) (here, own) =
      and_then-AreFor symbol (on_message t open_ msg) (read_messages t open_ rest)
        (on_message-AreFor symbol open_ msg here) (read_messages-AreFor symbol open_ rest own)

  task_updates-AreFor :
      (symbol : String) (open_ : Bool) (attempts : List Attempt)
      → All (IsOwnAttempt symbol) attempts
      → AreFor symbol (task_updates t open_ attempts)
  unfolding task_updates
  task_updates-AreFor symbol open_ [] own = tt
  task_updates-AreFor symbol open_ (refused ∷ rest) (here, own) =
      task_updates-AreFor symbol open_ rest own
  task_updates-AreFor symbol open_ (connected messages ∷ rest) (here, own) =
      let (sent, alive) = read_messages t open_ messages in
      let first = read_messages-AreFor symbol open_ messages here in
      let later = task_updates-AreFor symbol open_ rest own in
      if-elim (AreFor symbol) alive (sent ++ task_updates t open_ rest) sent
        (λ h. All-append _ sent (task_updates t open_ rest) first later) (λ h. first)

  -- Each task yields events of its symbol only, and no symbol has two tasks.
  abbrev pub AreOwn : Dict (List Attempt) → Type 0
  AreOwn [] = Unit
  AreOwn ((symbol, attempts) ∷ tasks) = All (IsOwnAttempt symbol) attempts × AreOwn tasks

  no_task_updates :
      (open_ : Bool) {tasks : Dict (List Attempt)} {updates : List (OrderbookUpdate D)}
      (symbol : String)
      → Merged t open_ tasks updates
      → AreOwn tasks
      → find tasks symbol ≡ none
      → updates_of symbol updates ≡ []
  unfolding find
  no_task_updates open_ symbol no_task own gone = refl
  no_task_updates open_ symbol (one_more {key} {first} {tasks} {others} m i) (here, own) gone =
      elim (Bool-cases (str_eq symbol key)) [
        | inl mine ↦ absurd (ground arith)
        | inr alien ↦
            updates_of-right symbol key i (task_updates-AreFor key open_ first here)
              (λ q. cc (sym alien ∙ (eq_iff symbol key).1 q))
            ∙ no_task_updates open_ symbol m own (ground arith)
      ]

  -- However the tasks of the symbols interleave, the updates of a symbol come out of `connect_ws` as
  -- its task sends them: all of them, in their order, and no other of that symbol. Each task must be
  -- sent events of its own symbol only, and no symbol must have two tasks.
  pub updates_of-Merged :
      (open_ : Bool) {tasks : Dict (List Attempt)} {updates : List (OrderbookUpdate D)}
      (symbol : String) (attempts : List Attempt)
      → Merged t open_ tasks updates
      → AreOwn tasks
      → IsMap tasks
      → find tasks symbol ≡ some attempts
      → updates_of symbol updates ≡ task_updates t open_ attempts
  unfolding find
  updates_of-Merged open_ symbol attempts no_task own map at = absurd (ground arith)
  updates_of-Merged open_ symbol attempts (one_more {key} {first} {tasks} {others} m i) (here, own)
        (fresh, map) at =
      elim (Bool-cases (str_eq symbol key)) [
        | inl mine ↦
            let named : symbol ≡ key = (eq_iff symbol key).0 mine in
            let same : first ≡ attempts = ground arith in
            let none_else = no_task_updates open_ key m own fresh in
            let all_own =
              updates_of-left key i (task_updates-AreFor key open_ first here) none_else in
            rw (named, ← same) all_own
        | inr alien ↦
            updates_of-right symbol key i (task_updates-AreFor key open_ first here)
              (λ q. cc (sym alien ∙ (eq_iff symbol key).1 q))
            ∙ updates_of-Merged open_ symbol attempts m own map (ground arith)
      ]
