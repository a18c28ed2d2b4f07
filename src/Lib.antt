-- ===== src/Lib.antt =====
-- A verification library for the trading platform under services/: models of the parts that decide
-- whether an order goes out, and the theorems that make those parts correct.
--
-- How the parts interact. Strategies run behind strategy_runner.py, each with its own circuit breaker
-- and daily cap. A signal that the risk engine approves reaches the execution engine, whose order
-- manager reserves it in DynamoDB, moves its order through a status machine and calls the broker by a
-- retry handler with a breaker of its own; every call of the broker takes a token of the rate limiter.
-- The trade exit engine watches open positions and closes them by the exit router, past the signal
-- path, under a lock on the position's row. The safe actions are what the monitoring agent may do on
-- its own: block entries, or write the kill switch of the risk engine as active. The risk engine reads
-- that row by the polls of its cache, checks a signal by its validators, reserves its decision under the
-- signal and publishes it; a loss, and the monitors of the engine's health, activate the switch.
--
-- Files, and the code they model:
--   Common        names and lemmas that all modules use; no code of the repository.
--   Shared/RateLimiter
--                 services/shared/zerodha/rate_limiter.py: ZerodhaRateLimiter as the record Limiter;
--                 _refill, _can_acquire, _consume and acquire under their names. Budget bounds what is
--                 granted, Queue says who is left waiting.
--   Shared/LocalOutbox
--                 services/shared/kafka/local_outbox.py: the SQLite table as a list of rows, as the connection
--                 sees it and as it is committed. Batch is one drain and Tables its bounds, Account one call
--                 and Delivery any sequence of them.
--   Shared/MarketPhase
--                 services/shared/zerodha/market_phase.py: MarketPhaseGovernor as the record Governor, its
--                 schedule, its budgets and its loop. Schedule and Broadcast hold the theorems.
--   Risk/KillSwitch
--                 services/risk_engine/killswitch/killswitch.py: the methods of KillSwitch under their names,
--                 over the table of Execution/SafeActions/RiskState, with Persistence. Its child Cache is
--                 services/risk_engine/cache/kill_switch_cache.py, with Polling; its child Monitor is
--                 services/risk_engine/killswitch/auto_triggers.py, with Rate and Lag.
--   Risk/Limits, Risk/Signals, Risk/Validators
--                 services/risk_engine/limits/risk_limits.py, services/shared/models/signal.py, and
--                 services/risk_engine/validators, a function validate_x for the method validate of each.
--   Risk/ContextBuilder
--                 services/risk_engine/context/risk_context_builder.py: build and its fetches.
--   Risk/DailyLoss
--                 services/risk_engine/validators/loss_validator.py: the cache and the limit, and in Fills
--                 record_fill with its writes. Balance, Accounting and Counting hold the theorems.
--   Risk/Pipeline
--                 validate_signal of services/risk_engine/service.py: the validators over the context, with
--                 the cached kill switch before and its activation after. Admission, Limits and Halt hold
--                 the theorems.
--   Risk/FillHandler
--                 _handle_fill of services/risk_engine/service.py; FillNames gives the text that identifies a
--                 fill. Halting follows a loss from the fill to the
--                 signals.
--   Risk/Publishing
--                 the two loops of services/risk_engine/service.py around validate_signal, a message at a
--                 time: the reservation of a decision, its publication and its mark; consume is the fallback
--                 loop over a partition, with the position that it commits. Decisions, Rows and Commits hold
--                 the theorems.
--   Execution/Exit
--                 services/execution_engine/exit/exit_models.py (Models), the positions table (Positions),
--                 services/execution_engine/monitors/trade_exit_engine.py (Engine) and
--                 services/execution_engine/exit/exit_order_router.py (Router). An evaluation of the engine
--                 is a function into Decision; route gives the result, the order that was sent, and the
--                 table. Triggers, Trailing and Lock hold the theorems.
--   Execution/Orders
--                 services/execution_engine/orders/order.py and order_manager.py: Status has the enum and
--                 _VALID_TRANSITIONS, Database what is relied on of DynamoDB, Manager the methods of
--                 OrderManager that write orders. Lifecycle, Reservation and Transition hold the theorems.
--   Execution/Retry
--                 services/execution_engine/retry/retry_handler.py: the circuit, and the loop of execute
--                 over the list of the broker's replies.
--   Execution/SafeActions
--                 services/execution_engine/safe_actions: Models, Policy, Classifier and Executor by their
--                 files, with safe_action_idempotency_store.py and safe_action_audit.py in Executor, and
--                 RiskState for services/shared/risk_state.py with safe_action_dynamo_writer.py. Authority,
--                 Once and Audit hold the theorems.
--   Strategy/CircuitBreaker, Strategy/Runner
--                 services/strategy_engine/runners/circuit_breaker.py and strategy_runner.py.
--
-- How the models stand to the code. State is a record that each method takes and gives back. What is not in
-- the repository is a parameter: DynamoDB is a record of reads and conditional writes with the laws
-- that the service documents, each atomic, and a Fate says whether the caller sees the answer, or an
-- error before or after the write; brokers and strategies are the outcomes of their calls. Other
-- clients are sequences of writes between the steps of one method. Clocks are arguments. Floats are
-- whole numbers of a unit as fine as one likes, and a product with a percentage is rounded down; in the
-- risk engine percentages are in hundredths and times in milliseconds.
--
-- Fuel. The loop of the rate limiter runs on as many rounds as it has waiters, which Queue shows to be
-- enough; the retry loop has one round for each attempt, and its bound shows that it never runs
-- out. The other loops are recursions on lists.
--
-- Not modelled: logging, metrics, alerts and texts; Kafka, SNS and the brokers' SDKs; the queries over
-- indexes, the cost basis of positions and the NAV snapshot of the order manager; the
-- pollers and the reconciliation; the AI engine, data ingestion and the
-- universe; scripts, infrastructure and tests.
pub mod Common
pub mod Shared
pub mod Risk
pub mod Execution
pub mod Strategy
