-- ===== src/Lib.antt =====
-- Verification of ArbCore, an engine for triangular arbitrage between three order books.
--
-- The program and its parts. An adapter (crates/adapters) turns what an exchange sends into updates.
-- The wiring (crates/marketdata/src/adapter_wiring.rs) turns an update into a snapshot or a delta and
-- forwards it to the worker of its symbol (manager.rs), the single writer of that symbol's order book
-- (crates/orderbook). A view of the best levels of three books (triview.rs) goes to the strategy
-- engine (crates/strategy/src/engine.rs), which looks for cycles that earn (tri_arbitrage.rs), makes
-- them trade plans (planner.rs), registers these as in flight and sends them to the execution, and
-- whose second task handles the reports of the execution and the timeouts. The execution
-- (crates/execution/src/mock.rs) runs one worker for each plan, which reports its legs one by one.
--
-- Files.
--   Common       Boolean tests, lists, results with errors and panics, HashMap as `Dict`
--   Decimal      `rust_decimal::Decimal` as a parameter: its operations, and its documented laws as
--                records; Decimal/Whole is an instance, Decimal/Order what follows from the laws
--   Orderbook    types.rs, errors.rs and orderbook.rs: `OrderBook`, `apply_snapshot`, `apply_delta`,
--                `apply_delta_with_gap_tolerance`, `top_n`, `estimate_fill_price`, with the
--                BTreeMap in Ladder and the sequence checks in Sequence; the proofs are in Validity,
--                Depth, Gaps, Fill, Views and Copy
--   MarketData   triview.rs in Triangle, manager.rs in Worker (`per_symbol_worker`) and, with
--                adapter_wiring.rs, in Wiring (`MarketDataManager`, `forward`); the proofs are in
--                TopLevels, Buffering, Replay, Tracking and Forwarding. The task of
--                `subscribe_triangle` is in Subscription, proved in Delivery; `wire_adapter_to_manager`
--                as a whole in Startup, and with the workers in Live; ws_client.rs in WsClient
--   Adapters     binance_spot.rs: the conversions in Binance, the task of one websocket in Stream; the
--                proofs are in Conversion, Backoff and, for the channel that all tasks share,
--                Merging; Book has the adapter as the wiring takes it, and proves the way from the
--                exchange to a book
--   Strategy     config.rs in Config, tri_arbitrage.rs in Detector, planner.rs in Planner, engine.rs in
--                Engine with its children Detector (the detector's loop) and Monitor (reports and
--                timeouts); the proofs are in Validation, Cycles, NoArbitrage, Plans and, for the
--                engine, Inflight, Reports, Timeouts, Keys, Sending, Others and Deadline; Loops has
--                the two tasks that `start` spawns
--   Execution    mock.rs: the worker of a plan, the canceller and their map in Mock; the proofs of it
--                are in Fills and Signalled. The engine and the execution together are in
--                Progress, Handling and Life, and among other turns in Awaiting and Interleaved
--   System       mock_execution_demo.rs: the engine and the execution with the channels and forwarders
--                that `main` puts between them: State, and in Actions a round of each task. What the
--                system holds of one plan is in Views, how it changes in Moves, Steps, Working, Chances
--                and Fires, and what is kept of it in Pending, Opened and Runs; the proofs
--                about rest are in Rest, those about the work that is left in Load, Ends and Finite, and
--                the configuration of the demo is in Demo, the views that it gives to its engine in Feed
--
-- State. A method that takes a lock once is a function from the old state to the new one. The
-- engine's two tasks share one state, and Strategy/Engine/Inflight has the step relation in which
-- the actions of the detector, split at its locks, the monitor and the callers interleave in any
-- order; the handling of a report, which takes the lock twice, is one action there, since only its
-- second part changes the shared state. A channel is the list of what was sent and a flag, true
-- until the receiver is dropped. The two tasks of the engine also run in turns, a round of a loop
-- each, in an order that is an argument; and System has them with the tasks of the execution and
-- the forwarders, in any order of events, where a view's opportunities are taken one at a time. The
-- clock, fresh identities, the replies of an exchange and what a worker hears of its one-shot
-- channel are arguments. A panic is a value, `panic`, where the code can meet one: a division by
-- zero. Counters wrap at 2 ^ 64. Loops run over lists, so no fuel is used.
--
-- Parameters. The laws of decimals are hypotheses of the theorems that need them: a total order,
-- exact sums and products, division that panics at zero only. A quotient may be rounded up: a
-- theorem that needs that certain quotients are not says so of them. Overflow of a decimal is
-- outside the model. `f32` is a parameter of the configuration. The parser of decimals is a
-- parameter of the adapter's conversions, and what a websocket yields is an argument of its task.
--
-- Not modelled. Input and output: HTTP, websockets, the database (crates/stroage), files and TOML,
-- log lines, the addresses of the exchange. Of the demo (crates/demo), the set-up of the log and of
-- the database, and that the program ends when one of its tasks does. The capacity of a bounded
-- channel whose sender waits without limit, but for those that the demo puts between the engine and
-- the execution; that of the views, whose sender gives up, is modelled too.
pub mod Common
pub mod Decimal
pub mod Orderbook
pub mod Adapters
pub mod MarketData
pub mod Strategy
pub mod Execution
pub mod System
