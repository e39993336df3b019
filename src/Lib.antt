-- ===== src/Lib.antt =====
-- boolean-maybe: a verification library of the reliable submission of Jobs to an external service.
--
-- The program takes a Job Entry and an idempotency key, records the Job and its submission
-- attempts in SQLite, sends the request, and records what it saw. A submission whose effect is
-- unknown is never sent again: its attempt stays open under a lease until a reconciliation, a late
-- response or a take-over resolves it. A simulated service stands in for the external one.
--
-- Which file models which part:
--   * Domain/RetryAfter, Domain/Backoff: src/boolean_maybe/domain/retry_after.py, backoff.py and
--     random_source.py.
--   * Persistence/Rows, Persistence/Database: the rows, the tables with the constraints of
--     src/boolean_maybe/persistence/schema.py, and the SQL statements of transactions.py and
--     rate_limit_gate.py.
--   * Persistence/PreSideEffect, Lease, Observations, Finalize, Reconcile: the transactions of
--     src/boolean_maybe/persistence/transactions.py, under the functions' names;
--     run_pre_side_effect_transaction is run_supplied and run_generated.
--   * Domain/IdempotencyKey: src/boolean_maybe/domain/idempotency_key.py.
--   * External/Outcome, Client, Reconcile, Transport: the outcome classes of
--     src/boolean_maybe/external/client.py and reconcile.py, the classification of a response, and
--     the content type, JSON and error envelope of _transport.py; External/Literal numbers the texts
--     of the code.
--   * Application/Classification, Waiting, AttemptHistory:
--     src/boolean_maybe/application/classification.py, waiting.py and history_projection.py.
--   * Application/ReconciliationSequence, Recovery, Submit: the workflows of
--     src/boolean_maybe/application/reconciliation_sequence.py, recovery.py and submit.py over those
--     transactions; Application/Flow is what they share, the tables with the requests made so far
--     and one call from outside.
--   * Simulator/Scenario, State, Service, ReconciliationPath:
--     src/boolean_maybe/simulator/scenario.py, state.py, service.py and idempotency.py.
--   * Persistence/Ledger is the invariant of the tables, with the lemmas on reading and writing them;
--     Persistence/Reachable puts the transactions together as the steps of one relation. Lemmas stand
--     below the module that they are about; Examples holds the concrete runs.
--
-- How the code is read. A transaction is a function from the tables to a result and the tables that
-- it commits; it returns the tables it began with for ROLLBACK, and an error where it raises (BEGIN
-- IMMEDIATE makes transactions of all processes follow one another). Ids, tokens and keys are texts
-- that the code only compares, and are numbers here; an instant is a number of microseconds; a
-- duration of application/waiting.py is one too, where the source has seconds in floating point.
-- The clock's readings and the ids that the generator draws are arguments. `out_of_draws` is the
-- end of these lists, and nothing else. The loop of wait_while_renewing_lease has the delay in
-- microseconds for fuel, and sleeps at least one in each round. The random source is a record with
-- its documented bounds, and strptime, the decoder of UTF-8, the canonical form of stored bytes and
-- the hash that makes a remote id are parameters. In the steps of a history and in a workflow the
-- source is one function of the bounds, so draws with the same bounds are the same there.
--
-- A workflow is a function from the tables and the list of requests sent to its result, the tables
-- and the list. Each of its calls to the database stands in a `Moment`: the steps that other
-- processes committed since the last call, the failure of the call's transaction if it fails, the
-- clock's reading and the draws. What is out of the program's hands comes in as lists, one round
-- for each turn of the reconciliation sequence and one pass for each turn of the submission's loop,
-- and the end of these lists is `out_of_draws` too. The answer of the service to a request is the
-- transport's outcome or the adapter's, an exception of reconcile_job counting as a failure of the
-- transport, as the code has it. `cancelled` is asyncio.CancelledError and `assertion` an
-- AssertionError. The transaction of a lease's renewal is taken to have ended before the writing
-- that a cancellation brings about, and it is there that a cancellation is followed; a cancellation
-- at another `await` is not. Where the lists of a transaction in a workflow end, the workflow goes
-- on as after an exception of the generator. json.loads is a parameter of the adapters, and what it
-- reads is a tree of members.
--
-- Not modelled: rounding in floating point (math.ceil of a product may be one millisecond more
-- where the difference is a whole number of milliseconds), overflow of datetime,
-- sqlite3.OperationalError other than as the failure of a whole transaction, and the locks of the
-- simulator, under which each handler runs as a whole. Of the program: the parsing and printing of
-- command lines, sockets and the reading of a response from them, the simulator's HTTP server,
-- canonical JSON, the check of the database's schema, and the first and last steps of run_submit
-- (validation of the entry, opening of the connection, attempt history), with the drawing of the
-- invocation's token.
pub mod Prelude
pub mod Domain
pub mod Persistence
pub mod External
pub mod Application
pub mod Simulator
pub mod Examples
