-- ===== src/Adapters/Stream.antt =====
-- binance_spot.rs, `connect_ws`: the task of one symbol. What the websocket yields is an argument:
-- for each attempt to connect a failure or the messages read. A text is given by what the two
-- attempts to decode it yield. `open_` is true until the receiver of the updates is dropped.
use arb_core.Common.{
  ℕ, ◌+◌, ◌*◌, ◌%◌, min, Bool, true, false, Option, none, some, List, [], ◌∷◌, ◌++◌, Outcome, ok,
  err, panic, if◌then◌else◌, String,
}
use arb_core.Common.Dict.{Dict}
use arb_core.MarketData.Wiring.{OrderbookUpdate}
use arb_core.Adapters.Binance.{Text, AdapterError, BinanceDepthEvent, to_update_from_event}

pub data Message : Type 0 where
  -- the event of a combined stream, if the text is one, and the event of a single stream
  text : (wrapped single : Option BinanceDepthEvent) → Message
  ping close failure other : Message

pub data Attempt : Type 0 where
  refused : Attempt
  connected : List Message → Attempt

-- After a message the task reads on, leaves the connection, or dies of a panic.
pub data Flow : Type 0 where
  reads_on leaves dies : Flow

module _ {D : Type 0} (t : Text D) where
  -- What a message adds to the updates, and what is next.
  abbrev pub Outgoing : Type 0
  Outgoing = List (OrderbookUpdate D) × Flow

  abbrev pub send_update : Bool → Outcome AdapterError (OrderbookUpdate D) → Outgoing
  send_update open_ (ok update) = if open_ then (update ∷ [], reads_on) else ([], leaves)
  send_update open_ (err e) = ([], reads_on)
  send_update open_ panic = ([], dies)

  unfoldable pub on_message : Bool → Message → Outgoing
  unfolding to_update_from_event
  on_message open_ (text (some e) single) = send_update open_ (to_update_from_event t e)
  on_message open_ (text none (some e)) = send_update open_ (to_update_from_event t e)
  on_message open_ (text none none) = ([], reads_on)
  on_message open_ ping = ([], reads_on)
  on_message open_ close = ([], leaves)
  on_message open_ failure = ([], leaves)
  on_message open_ other = ([], reads_on)

  abbrev pub and_then : Outgoing → List (OrderbookUpdate D) × Bool → List (OrderbookUpdate D) × Bool
  and_then (sent, reads_on) (later, alive) = (sent ++ later, alive)
  and_then (sent, leaves) later = (sent, true)
  and_then (sent, dies) later = (sent, false)

  -- The inner loop: the updates it sends, and whether the task is still alive.
  unfoldable pub read_messages : Bool → List Message → List (OrderbookUpdate D) × Bool
  unfolding on_message
  read_messages open_ [] = ([], true)
  read_messages open_ (msg ∷ rest) = and_then (on_message open_ msg) (read_messages open_ rest)

  -- The updates of the whole task of one symbol.
  unfoldable pub task_updates : Bool → List Attempt → List (OrderbookUpdate D)
  unfolding read_messages
  task_updates open_ [] = []
  task_updates open_ (refused ∷ rest) = task_updates open_ rest
  task_updates open_ (connected messages ∷ rest) =
      let (sent, alive) = read_messages open_ messages in
      let later = task_updates open_ rest in if alive then sent ++ later else sent

-- The third list holds the elements of the two others, each in its order.
pub data Interleaves {A : Type 0} : List A → List A → List A → Type 0 where
  both_empty : Interleaves [] [] []
  from_left : {x : A} {xs ys zs : List A} → Interleaves xs ys zs → Interleaves (x ∷ xs) ys (x ∷ zs)
  from_right : {y : A} {xs ys zs : List A} → Interleaves xs ys zs → Interleaves xs (y ∷ ys) (y ∷ zs)

module _ {D : Type 0} (t : Text D) (open_ : Bool) where
  -- `connect_ws`: what comes out of the channel that the tasks of all symbols share.
  pub data Merged : Dict (List Attempt) → List (OrderbookUpdate D) → Type 0 where
    no_task : Merged [] []
    one_more :
        {key : String} {first : List Attempt} {tasks : Dict (List Attempt)}
        {others updates : List (OrderbookUpdate D)}
        → Merged tasks others
        → Interleaves (task_updates t open_ first) others updates
        → Merged ((key, first) ∷ tasks) updates

-- the delay after a connection: 100, or what it was if there was none
abbrev pub after_attempt : Attempt → ℕ → ℕ
after_attempt refused backoff_ms = backoff_ms
after_attempt (connected messages) backoff_ms = 100

-- The waits of the outer loop, one after each attempt; `random` is what is drawn for the jitter.
unfoldable pub waits : ℕ → (ℕ → ℕ) → ℕ → List Attempt → List ℕ
waits i random backoff_ms [] = []
waits i random backoff_ms (a ∷ rest) =
    let backoff_ms' = after_attempt a backoff_ms in
    (backoff_ms' + random i % 100) ∷ waits (i + 1) random (min (backoff_ms' * 2) 10000) rest

unfoldable pub connect_waits : (ℕ → ℕ) → List Attempt → List ℕ
unfolding waits
connect_waits random attempts = waits 0 random 100 attempts
