-- ===== src/MarketData/Forwarding.antt =====
-- What reaches the workers from the adapter.
use mathlib.Core.List.{append-nil, append_assoc}
use arb_core.Common.{
  ℕ, ◌+◌, ◌≡◌, ◌≢◌, ◌⊎◌, ◌↔◌, true, Option, none, some, List, [], ◌∷◌, ◌++◌, String, arith, ok, ap,
  ◌∙◌, Option-cases, inl, inr, if◌then◌else◌, str_eq, eq_iff, eq_refl,
}
use arb_core.Common.Dict.{find, find-put}
use arb_core.Decimal.{Decimal}
use arb_core.Orderbook.Sequence.{mismatch}
use arb_core.Orderbook.{OrderBook, OrderbookDelta, apply_delta}
use arb_core.MarketData.Worker.{SymbolMessage, delta, SnapshotFn}
use arb_core.MarketData.Wiring.{
  deliver, push, OrderbookUpdate, Sender, MarketDataManager, map_adapter_update_to_message, forward,
  forward_all, ensure_symbol_with_snapshot_provider, store_provider, get_sender,
}

module _ {D : Type 0} where
  -- the messages for one symbol, in the order of the updates
  unfoldable pub messages_for : String → List (OrderbookUpdate D) → List (SymbolMessage D)
  messages_for symbol [] = []
  messages_for symbol (update ∷ updates) =
      if str_eq symbol update.symbol
      then (map_adapter_update_to_message update).1 ∷ messages_for symbol updates
      else messages_for symbol updates

  abbrev pub more : Sender D → List (SymbolMessage D) → Sender D
  more tx messages = if tx.open_ then record tx { sent = tx.sent ++ messages } else tx

  deliver-find :
      (m : MarketDataManager D) (key symbol : String) (msg : SymbolMessage D) (tx : Sender D)
      → find m.symbol_senders symbol ≡ some tx
      → find (deliver m key msg).symbol_senders symbol
        ≡ some (if str_eq symbol key then push tx msg else tx)
  unfolding deliver get_sender
  deliver-find m key symbol msg tx h = elim (Option-cases (find m.symbol_senders key)) [
    | inl gone ↦ let differ = eq_iff symbol key in ground arith
    | inr (tx', at) ↦
        let put_find = find-put m.symbol_senders key symbol (push tx' msg) in
        let same = eq_iff symbol key in ground arith
  ]

  message-symbol :
      (update : OrderbookUpdate D) → (map_adapter_update_to_message update).0 ≡ update.symbol
  unfolding map_adapter_update_to_message
  message-symbol update = ground arith

  forward-find :
      (m : MarketDataManager D) (update : OrderbookUpdate D) (symbol : String) (tx : Sender D)
      → find m.symbol_senders symbol ≡ some tx
      → find (forward m update).symbol_senders symbol
        ≡ some (
            if str_eq symbol update.symbol
            then push tx (map_adapter_update_to_message update).1
            else tx)
  unfolding forward
  forward-find m update symbol tx h =
      let (key, msg) = map_adapter_update_to_message update in
      deliver-find m key symbol msg tx h
      ∙ ap (λ k. some (if str_eq symbol k then push tx msg else tx)) (message-symbol update)

  -- Of all updates that the adapter sends, the worker of a symbol gets exactly those of its symbol,
  -- in their order, while it is there; updates of other symbols do not reach it.
  pub forward_all-find :
      (m : MarketDataManager D) (updates : List (OrderbookUpdate D)) (symbol : String)
      (tx : Sender D)
      → find m.symbol_senders symbol ≡ some tx
      → find (forward_all m updates).symbol_senders symbol
        ≡ some (more tx (messages_for symbol updates))
  unfolding forward_all messages_for
  forward_all-find m [] symbol tx h = ground (arith, append-nil tx.sent, h)
  forward_all-find m (update ∷ updates) symbol tx h =
      let msg = (map_adapter_update_to_message update).1 in
      let tx' = if str_eq symbol update.symbol then push tx msg else tx in
      let step = forward-find m update symbol tx h in
      let rest = forward_all-find (forward m update) updates symbol tx' step in
      rest ∙ ground (arith, append_assoc tx.sent (msg ∷ []) (messages_for symbol updates))

  -- A second call for a symbol keeps the sender it has, and so its worker; a first one gives it an
  -- open sender with nothing sent. Either way the provider of the call, if there is one, is the one
  -- that is used from then on, and the senders of other symbols are untouched.
  pub ensure_symbol_lem :
      (m : MarketDataManager D) (symbol : String) (sf : Option (SnapshotFn D))
      → let m' = ensure_symbol_with_snapshot_provider m symbol sf in
        ((tx : Sender D)
          → find m.symbol_senders symbol ≡ some tx
          → find m'.symbol_senders symbol ≡ some tx)
        × (find m.symbol_senders symbol ≡ none
            → find m'.symbol_senders symbol ≡ some (record { sent = []; open_ = true }))
        × ((f : SnapshotFn D) → sf ≡ some f → find m'.snapshot_providers symbol ≡ some f)
        × (sf ≡ none → m'.snapshot_providers ≡ m.snapshot_providers)
        × ((other : String)
            → other ≢ symbol
            → find m'.symbol_senders other ≡ find m.symbol_senders other)
  unfolding ensure_symbol_with_snapshot_provider store_provider
  ensure_symbol_lem m symbol sf = (
    λ tx h. ground arith,
    λ h. ground (
      arith,
      find-put m.symbol_senders symbol symbol (record { sent = []; open_ = true }),
      eq_refl symbol,
    ),
    λ f h. ground (
      arith,
      Option-cases (find m.symbol_senders symbol),
      find-put m.snapshot_providers symbol symbol f,
      eq_refl symbol,
    ),
    λ h. ground (arith, Option-cases (find m.symbol_senders symbol)),
    λ other h. ground (
      arith,
      Option-cases (find m.symbol_senders symbol),
      find-put m.symbol_senders symbol other (record { sent = []; open_ = true }),
      eq_iff other symbol,
    ),
  )

module _ {D : Type 0} ⦃d : Decimal D⦄ where
  -- The delta made of an update numbered s is accepted by the strict check of a book at number n
  -- exactly if the update is the next one, or if both are at the start of the numbering.
  pub forwarded_accepted_iff :
      (b : OrderBook D) (update : OrderbookUpdate D) (change : OrderbookDelta D) (n s now : ℕ)
      → b.inner.last_seq ≡ some n
      → update.sequence ≡ some s
      → (map_adapter_update_to_message update).1 ≡ delta change
      → ((apply_delta b change now).1 ≡ ok tt) ↔ ((s ≡ n + 1) ⊎ ((s ≡ 0) × (n ≡ 0)))
  unfolding map_adapter_update_to_message apply_delta mismatch
  forwarded_accepted_iff b update change n s now h k e = ground arith
