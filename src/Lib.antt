-- ===== src/Lib.antt =====
-- A model of Kalatori, a payment gateway for merchants: invoices, the transfers that pay them, and
-- the payouts, refunds and webhook events that follow. Paths are from the repository's root.
--
-- The parts, and how they interact:
--   * daemon/src/types and client/src/types (Types, with Chain, Retry, Invoice, Transaction,
--     Transfer, Webhook, Swap and SwapOrder): the records and enums with the source's fields and variants.
--     `PayoutStatus` and `RefundStatus`, which agree, are one type. A `Decimal` is read by its value,
--     an exact signed integer number of the smallest step; ids and times are numbers.
--   * daemon/src/configs/types.rs (Config): `PaymentsConfig` and the tolerances; maps are functions.
--   * daemon/src/dao.rs and dao/*.rs with the constraints and triggers of migrations/ (Dao, with
--     Store, Invoices, Transactions, Transfers, WebhookEvents): the tables are lists of rows, in the
--     order of insertion. A method maps a `Store` to a result and a store. The store carries an
--     environment that says, call by call, whether the engine fails, the time and the next id, so
--     a theorem about every environment is one about every failure. `transaction` begins, runs a
--     body and commits, and rolls back when any of it does not succeed.
--   * daemon/src/chain/invoice_registry.rs (Registry): the map of active invoices, as a list of
--     entries in the order of its iterator.
--   * daemon/src/chain/transactions_recorder.rs (Recorder): `process_invoice_transaction` chooses the
--     status, stores everything in one transaction, then changes the registry and the record that
--     the caller lent it.
--   * daemon/src/chain/transfer_tracker.rs (Tracker): finds the invoice of each delivered transfer,
--     calls the recorder, and waits longer after each failure. A panic ends the process.
--   * daemon/src/chain/executor.rs (Executor, with Sending and Scheduling): the requests of payouts
--     and refunds, what a tick schedules, the submission of one transfer, where the answers of the
--     chain's client and of the swaps' services are parameters, and what a transfer's outcome does
--     to the transaction and to its payout or refund.
--   * daemon/src/utils/refund_destination_detector.rs (RefundDestination): where a refund goes.
--   * daemon/src/types/swap.rs, dao/swap.rs, swaps/executor.rs and swaps/tracker.rs (Types.Swap,
--     Types.SwapOrder, Dao.Swaps, SwapsExecutor and SwapsTracker): chains and their ids, orders of
--     swaps, their table, their submission, and what their end does to a payout or a refund.
--   * daemon/src/balance_checker.rs, with etherscan_client.rs (BalanceChecker): compares what has
--     been recorded for an invoice with the balance of its address, and stores what was missed.
--   * daemon/src/expiration_detector.rs (Expiration, with Detector): the loop over the expired
--     invoices, which checks the balance first, and the expiry of one invoice, with the refund of a
--     partial payment, in one transaction.
--   * daemon/src/state.rs (AppState): creation, update and cancellation of an invoice through the
--     API, and the payout by hand.
--   * daemon/src/webhook_sender.rs (WebhookSender): the turns of the sender, with the set of events
--     in processing and the requests in flight.
--   * daemon/src/auth and daemon/src/api/auth_endpoints.rs (Auth, with Token, Session, State and
--     Login): who may use the administration, the login and its encrypted state. Signatures, the
--     cipher, the parser of URLs and the authorization server's answers are parameters; headers and
--     tokens are lists of bytes, and times there are in nanoseconds.
--   * client/src/utils.rs and client/src/middleware.rs (Hmac): the signature of a request and its
--     validation. The MAC and the hexadecimal code are parameters.
--   * daemon/src/types/admin.rs, with the paginated reads of dao/*.rs and the listings of state.rs
--     (Dao.Listing and AppState.Listing): filters, an order, and pages. SQLite's functions on text
--     are parameters, and so is the order in which it comes upon the rows of a query.
--   * daemon/src/dao/changes.rs, types/changes.rs and AppState::get_invoice_changes (Types.Changes,
--     Types.ChangesJson, Dao.AllRows, Dao.Changes and AppState.Feed): the change feed, with the JSON
--     objects of its query and their conversions. The hexadecimal code, the formats of times, the
--     texts of numbers and addresses, and the order of a scan are parameters.
--   * World is what the tasks share, the store and the registry, with the start of
--     daemon/src/main.rs, `init_invoice_registry`.
--   * Ledger reads the books of an invoice from the tables: what came in, what payouts and refunds
--     send out, and what is due by the status. A sound state has balanced books and a registry in
--     step with the tables.
--   * System puts the tasks together: a step is one turn of the tracker, the expiration detector,
--     the API, the executor, the tracker of swaps or a start, and a run is any sequence of steps.
--   * Tests holds concrete runs.
--
-- Every loop is a structural recursion on what it runs over; there is no fuel. Machine integers are
-- written with their bounds where the code can reach them (`increment_retry`, `offset`, the attempts
-- of `RetryState`).
--
-- Not modelled: the select loops of the tasks with their shutdown, the swaps that
-- state/swaps.rs creates, the clients of the chains and of services, the other HTTP endpoints,
-- logging, and the text of errors and of JSON. The
-- scheduler is not modelled either: a turn of a task runs to its end before another starts. A
-- payout by hand and the webhook sender are no steps of a run: the first does not keep the books,
-- the second does not touch them.
pub mod Common
pub mod Types
pub mod Config
pub mod Dao
pub mod Registry
pub mod World
pub mod Recorder
pub mod Tracker
pub mod Ledger
pub mod Executor
pub mod Expiration
pub mod BalanceChecker
pub mod AppState
pub mod RefundDestination
pub mod WebhookSender
pub mod SwapsExecutor
pub mod SwapsTracker
pub mod Auth
pub mod System
pub mod Tests
pub mod Hmac
