-- ===== src/Lib.antt =====
-- The Axelar relayer: programs that carry messages between the Axelar network and the XRP ledger or
-- TON. A program of each kind runs for each chain, and they meet at a RabbitMQ queue, a Postgres
-- database, Redis and the GMP API of Axelar. Paths are from the root of the repository.
--
-- Parts, and the files that model them
--   - Gmp: the tasks, events and errors that all parts exchange
--     (relayer_base/src/gmp_api/gmp_types.rs in Gmp/Task and Gmp/Event, relayer_base/src/error.rs
--     in Gmp/Errors), with the constructors and fields of the source. Gmp/Parsing is `parse_task`
--     of relayer_base/src/utils.rs. Gmp/Api is relayer_base/src/gmp_api/mod.rs, the requests and
--     the wait for a broadcast; Gmp/Audit is relayer_base/src/gmp_api/gmp_api_db_audit_decorator.rs
--     around it, over the rows of relayer_base/src/models/gmp_tasks.rs and gmp_events.rs in
--     Gmp/Models.
--   - Queue: relayer_base/src/queue.rs. `republish` and `publish_item` are functions to an outcome
--     and the calls made, with what the broker answers as an argument; Queue/Republish is how a
--     delivery is settled, Queue/Retries the retry counter over several deliveries. Queue/Buffer is
--     the publisher's task (`BufferProcessor::run`) with its bounded channel, as a step relation of
--     producers, task, broker and shutdown; Queue/Consumer is what both consumers do with a
--     delivery at the end.
--   - Subscriber: relayer_base/src/subscriber.rs, the loop that polls a chain and publishes what it
--     finds for the ingestor, over an interface that Ton/Subscriber and Xrpl/Subscriber fill.
--   - Distributor: relayer_base/src/distributor.rs, which polls tasks and puts them on the queues:
--     the whole of it, on the answers of one round; Distributor/Routing, Distributor/Cursor and
--     Distributor/Recovery are about the queues, the cursor and the recovery loop.
--   - Ingestor: relayer_base/src/ingestor_worker.rs, and `on_delivery` of
--     relayer_base/src/ingestor.rs in Ingestor/Delivery, which takes deliveries from Queue and
--     settles them through Queue/Consumer.
--   - Includer: relayer_base/src/includer_worker.rs, one file per kind of task (Includer/Execute,
--     Includer/Gateway, Includer/Refund), and the dispatch with `on_delivery` of
--     relayer_base/src/includer.rs in Includer/Consume.
--   - Ton: Ton/QueryId is ton/src/high_load_query_id.rs; Ton/QueryStore is
--     ton/src/high_load_query_id_db_wrapper.rs over the table of
--     ton/src/models/ton_wallet_query_id.rs; Ton/Wallets is ton/src/lock_manager.rs with the
--     acquisition and release of ton/src/wallet_manager.rs; Ton/Gas is ton/src/gas_calculator.rs
--     and Ton/GasEstimator ton/src/gas_estimator.rs. Ton/Broadcaster is ton/src/broadcaster.rs,
--     which the Includer calls. Ton/Traces is the table of ton/src/models/ton_trace.rs, which
--     Ton/Subscriber fills (ton/src/subscriber.rs and retry_subscriber.rs) and Ton/Ingestor
--     (ton/src/ingestor.rs) completes with the events of Ton/Parser
--     (ton/src/transaction_parser/parser.rs), which takes the prices of jettons from Ton/Conversion
--     (`convert_jetton_to_native` of ton/src/transaction_parser/common.rs).
--   - Retrier: relayer_base/src/proof_retrier.rs, with `get` of relayer_base/src/payload_cache.rs.
--     It takes what Includer/Gateway hands over when a prover transaction fails; Retrier/Cycle runs
--     the two together on the counter that they share in Redis.
--   - Xrpl: Xrpl/QueuedTransactions is the table of xrpl/src/models/queued_transactions.rs,
--     Xrpl/Monitor is xrpl/src/queued_tx_monitor.rs, Xrpl/Broadcaster is xrpl/src/broadcaster.rs,
--     and Xrpl/Memos its reading of memos in relayer_base/src/utils.rs. Xrpl/Subscriber is
--     xrpl/src/subscriber.rs and Xrpl/Refunds xrpl/src/refund_manager.rs. Of xrpl/src/ingestor.rs,
--     Xrpl/Transactions stores a transaction and takes it by its kind, Xrpl/Proofs is
--     `handle_construct_proof`, Xrpl/Payments reads a payment into a message (Xrpl/Messages),
--     Xrpl/Translation and Xrpl/Events report it, Xrpl/Routing handles the events of the contracts
--     that verify and route it, and Xrpl/Retries the tasks that are tried again.
--   - Prices: the conversion of token amounts to drops, relayer_base/src/price_view.rs with its
--     caller in relayer_base/src/utils.rs and the tokens of relayer_base/src/config.rs.
--   - Base: shared lists, results, maps, casts, operations on texts, and the writer of calls
--     (Base/Traces).
--   - Examples: the theorems at concrete inputs.
--
-- How the code is read
--   - An asynchronous function is a function of what the outside answers (`Answers`, `Env`,
--     `Handlers`), to its outcome (done, an error, a panic) and the list of its calls in order.
--     Logging, tracing spans and metrics have no effect and are left out.
--   - Tables are association lists by their key, Postgres statements functions on them; a statement
--     that fails changes nothing. Redis is a record of commands with laws that state its documented
--     behaviour, whose errors may have changed the server.
--   - Machine integers: the `u16` of the retry counter, and the `u32`, `u64` and `i32` of the query
--     ids, wrap as in a release build; casts are `as_u32` and `as_i32` of Base/Int. The `i128` of
--     the gas costs and the `i64` of a refund are their two's complement. Heights and retry
--     counters that the code only compares and steps by one are integers (ℤ).
--   - Loops are structural: over the tasks or transactions of a round, and over a list of rounds
--     for the endless ones. The wait for a broadcast is a recursion on the polls that its time
--     limit allows, 31 of two seconds each, after which it returns as the code does. The buffer's
--     capacity is a parameter of its step relation, `buffer_size` in the source.
--   - Third-party code is a parameter: the JSON, RabbitMQ, Redis, base64, hex, decimals and XRPL
--     libraries, and the id type of the Axelar router.
--
-- Not modelled: the connection management of the queue; the parsers of single TON messages and the
-- cell encodings, which are parameters; the statements of the XRPL ingestor's table of
-- transactions; the XRPL ticket creator and funder; the price feed; the account monitors, the
-- clients of the two chains, configuration, logging and the programs' entry points, which are input
-- and output or set-up.
pub mod Base
pub mod Gmp
pub mod Queue
pub mod Prices
pub mod Subscriber
pub mod Distributor
pub mod Ingestor
pub mod Includer
pub mod Ton
pub mod Retrier
pub mod Xrpl
pub mod Examples
