-- ===== src/MarketData/Startup.antt =====
-- adapter_wiring.rs, `wire_adapter_to_manager`: what the manager holds when the stream of the adapter
-- has ended. The adapter is a parameter: its replies to requests for a snapshot, by the number of
-- the request, and the updates that its stream yields, if it connects.
use mathlib.Core.Option
use arb_core.Common.{
  ℕ, ◌≡◌, ◌≢◌, ◌↔◌, refl, ap, ◌∙◌, Bool, true, false, Option, none, some, List, [], ◌∷◌, String,
  str_eq, eq_iff, ◌||◌, Option-cases, if◌then◌else◌, inl, inr, arith,
}
use arb_core.Common.Dict.{find, find-put}
use arb_core.MarketData.Worker.{SnapshotFn}
use arb_core.MarketData.Wiring.{
  OrderbookUpdate, Sender, MarketDataManager, map_adapter_snapshot_to_canonical, forward_all,
  forward, deliver, get_sender, store_provider, map_adapter_update_to_message, push,
  ensure_symbol_with_snapshot_provider,
}
use arb_core.MarketData.Forwarding.{more, messages_for, forward_all-find}

pub record ExchangeAdapter (D : Type 0) : Type 0 where
  pub get_snapshot : String → ℕ → Option (OrderbookUpdate D)
  pub connect_ws : List String → Option (List (OrderbookUpdate D))

abbrev pub is_listed : String → List String → Bool
is_listed symbol [] = false
is_listed symbol (x ∷ xs) = str_eq symbol x || is_listed symbol xs

module _ {D : Type 0} where
  -- the sender that a symbol has, or a new one
  abbrev pub or_new : Option (Sender D) → Sender D
  or_new none = record { sent = []; open_ = true }
  or_new (some tx) = tx

  ensure-find :
      (m : MarketDataManager D) (key symbol : String) (f : SnapshotFn D)
      → let m' = ensure_symbol_with_snapshot_provider m key (some f) in
        (find m'.symbol_senders symbol ≡ (
          if str_eq symbol key
          then some (or_new (find m.symbol_senders symbol))
          else find m.symbol_senders symbol))
        × (find m'.snapshot_providers symbol
            ≡ (if str_eq symbol key then some f else find m.snapshot_providers symbol))
  unfolding ensure_symbol_with_snapshot_provider store_provider
  ensure-find m key symbol f =
      let at = Option-cases (find m.symbol_senders key) in
      let same = eq_iff symbol key in
      (
        ground (
          arith,
          at,
          same,
          find-put m.symbol_senders key symbol (record { sent = []; open_ = true }),
        ),
        ground (arith, at, find-put m.snapshot_providers key symbol f),
      )

  forward-kept :
      (m : MarketDataManager D) (update : OrderbookUpdate D)
      → ((forward m update).snapshot_providers ≡ m.snapshot_providers)
        × ((symbol : String)
            → find m.symbol_senders symbol ≡ none
            → find (forward m update).symbol_senders symbol ≡ none)
  unfolding forward deliver get_sender
  forward-kept m update =
      let (key, msg) = map_adapter_update_to_message update in
      elim (Option-cases (find m.symbol_senders key)) [
        | inl gone ↦ ground arith
        | inr (tx, at) ↦ (
          ground arith,
          λ symbol h.
              ground (arith, find-put m.symbol_senders key symbol (push tx msg), eq_iff symbol key),
        )
      ]

  forward_all-kept :
      (m : MarketDataManager D) (updates : List (OrderbookUpdate D))
      → ((forward_all m updates).snapshot_providers ≡ m.snapshot_providers)
        × ((symbol : String)
            → find m.symbol_senders symbol ≡ none
            → find (forward_all m updates).symbol_senders symbol ≡ none)
  unfolding forward_all
  forward_all-kept m [] = (refl, λ symbol h. h)
  forward_all-kept m (update ∷ updates) =
      let (first, none_first) = forward-kept m update in
      let (rest, none_rest) = forward_all-kept (forward m update) updates in
      (rest ∙ first, λ symbol h. none_rest symbol (none_first symbol h))

  -- the updates that come, none if the adapter does not connect
  abbrev pub streamed : Option (List (OrderbookUpdate D)) → List (OrderbookUpdate D)
  streamed none = []
  streamed (some updates) = updates

  forward_all-map :
      (m : MarketDataManager D) (updates : List (OrderbookUpdate D)) (symbol : String)
      → find (forward_all m updates).symbol_senders symbol
        ≡ Option.map (λ tx. more tx (messages_for symbol updates)) (find m.symbol_senders symbol)
  forward_all-map m updates symbol = elim (Option-cases (find m.symbol_senders symbol)) [
    | inl gone ↦ rw gone ((forward_all-kept m updates).1 symbol gone)
    | inr (tx, at) ↦ rw at (forward_all-find m updates symbol tx at)
  ]

module _ {D : Type 0} (adapter : ExchangeAdapter D) where
  -- the closure that is registered for every symbol
  unfoldable pub snapshot_fn : SnapshotFn D
  snapshot_fn symbol i =
      Option.map map_adapter_snapshot_to_canonical (adapter.get_snapshot symbol i)

  unfoldable pub register_symbols : MarketDataManager D → List String → MarketDataManager D
  unfolding snapshot_fn
  register_symbols m [] = m
  register_symbols m (sym_ ∷ symbols) =
      register_symbols (ensure_symbol_with_snapshot_provider m sym_ (some snapshot_fn)) symbols

  -- The manager, and whether the call returns a forwarder or an error.
  unfoldable pub wire_adapter_to_manager :
      MarketDataManager D → List String → MarketDataManager D × Bool
  unfolding register_symbols
  wire_adapter_to_manager m symbols =
      let m' = register_symbols m symbols in
      elim (adapter.connect_ws symbols) [
        | none ↦ (m', false)
        | some updates ↦ (forward_all m' updates, true)
      ]

  register-find :
      (m : MarketDataManager D) (symbols : List String) (symbol : String)
      → let m' = register_symbols m symbols in
        (find m'.symbol_senders symbol ≡ (
          if is_listed symbol symbols
          then some (or_new (find m.symbol_senders symbol))
          else find m.symbol_senders symbol))
        × (find m'.snapshot_providers symbol ≡ (
            if is_listed symbol symbols
            then some snapshot_fn
            else find m.snapshot_providers symbol))
  unfolding register_symbols
  register-find m [] symbol = (refl, refl)
  register-find m (key ∷ symbols) symbol =
      let m' = ensure_symbol_with_snapshot_provider m key (some snapshot_fn) in
      let (senders, providers) = ensure-find m key symbol snapshot_fn in
      let (senders', providers') = register-find m' symbols symbol in ground arith

  -- What is registered for a symbol, and sent to it, by the time `updates` are forwarded.
  pub record IsWired (m m' : MarketDataManager D) (symbols : List String)
      (updates : List (OrderbookUpdate D)) (symbol : String) : Type 0 where
    pub provider :
        find m'.snapshot_providers symbol
        ≡ (if is_listed symbol symbols then some snapshot_fn else find m.snapshot_providers symbol)
    pub sender_of_listed :
        is_listed symbol symbols ≡ true
        → find m'.symbol_senders symbol
          ≡ some (more (or_new (find m.symbol_senders symbol)) (messages_for symbol updates))
    pub sender_of_other :
        is_listed symbol symbols ≡ false
        → find m'.symbol_senders symbol
          ≡ Option.map (λ tx. more tx (messages_for symbol updates)) (find m.symbol_senders symbol)

  forwarded-IsWired :
      (m : MarketDataManager D) (symbols : List String) (updates : List (OrderbookUpdate D))
      (symbol : String)
      → IsWired m (forward_all (register_symbols m symbols) updates) symbols updates symbol
  forwarded-IsWired m symbols updates symbol =
      let m₁ = register_symbols m symbols in
      let (senders, providers) = register-find m symbols symbol in
      let sent = forward_all-map m₁ updates symbol in
      let kept = (forward_all-kept m₁ updates).0 in
      record {
        provider = ap (λ ps. find ps symbol) kept ∙ providers;
        sender_of_listed = λ h. ground arith;
        sender_of_other = λ h. ground arith;
      }

  -- Every symbol of the call is registered: it keeps its sender or has a new one, and its provider is
  -- the adapter's snapshot, converted; other providers are untouched. If the adapter connects the
  -- call succeeds, and each sender, those of the call's symbols and those that were there, gets
  -- exactly the updates of its symbol, in their order; if not, it returns an error, but what it
  -- registered stays. A symbol that is neither of the call nor registered gets no sender.
  pub wire_adapter_to_manager_lem :
      (m : MarketDataManager D) (symbols : List String)
      → let (m', wired) = wire_adapter_to_manager m symbols in
        ((wired ≡ true) ↔ (adapter.connect_ws symbols ≢ none))
        × ((symbol : String) → IsWired m m' symbols (streamed (adapter.connect_ws symbols)) symbol)
  unfolding wire_adapter_to_manager forward_all
  wire_adapter_to_manager_lem m symbols = go (adapter.connect_ws symbols) refl
    where
      go :
          (r : Option (List (OrderbookUpdate D)))
          → adapter.connect_ws symbols ≡ r
          → let (m', wired) = wire_adapter_to_manager m symbols in
            ((wired ≡ true) ↔ (adapter.connect_ws symbols ≢ none))
            × ((symbol : String)
                → IsWired m m' symbols (streamed (adapter.connect_ws symbols)) symbol)
      go none e =
          rw (e, wire_adapter_to_manager)
            (
              (λ h. absurd (cc h), λ h. absurd (h refl)),
              λ symbol. forwarded-IsWired m symbols [] symbol,
            )
      go (some updates) e =
          rw (e, wire_adapter_to_manager)
            ((λ h. λ q. cc q, λ h. refl), λ symbol. forwarded-IsWired m symbols updates symbol)
