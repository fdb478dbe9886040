-- ===== src/Lib.antt =====
-- A model of the coordinator of GRIDIX (api/app): jobs and their states, the double-entry ledger
-- and the code that moves money through it, the verification of results, quorums, reputation,
-- slashing disputes, the audit log, the choice of providers, the limits of the free tier, uploads,
-- the mirror of the chain in the ledger, and the settlement of the ledger on the chain, with the
-- reconciliation of the two.
--
-- Parts and files. Each module is named for its Python module, and a function keeps its name
-- without a leading underscore:
--   Models: api/app/models.py, the enums and the rows. Config: api/app/config.py, the settings.
--   StateMachine: api/app/state_machine.py, `transition` and the times it stamps.
--   Session: what the code uses of a SQLAlchemy session over the ledger table.
--   Ledger: api/app/ledger.py, `post_transaction`, balances, stake, the integrity check.
--   Payments: api/app/payments.py, the interface `PaymentProvider` and its fiat stub.
--   Pricing: api/app/pricing.py, with the decimal arithmetic of Decimal.
--   UsageBilling: api/app/usage_billing.py; Requests interleaves the reservations of
--     api/app/routes/inference.py.
--   Catalog: api/app/catalog.py. NodeUsage: api/app/node_usage.py.
--   Quorum: api/app/quorum.py; an output hash is any JSON value (OutputHash), and one that Python
--     cannot hash makes the quorum raise. Verification: api/app/verification.py.
--   Reputation: api/app/reputation.py. Penalties: api/app/penalties.py.
--   Disputes: api/app/disputes.py. Adjudicate: api/app/adjudicate.py.
--   Results: api/app/results.py. Finalize has the decision of `_finalize` (here `decide_job`),
--     Outcomes `_apply_outcome`, Results itself `_settle` (here `settle_job`), and Recording
--     `record_result` and `_finalize` as a whole, with the reaping of a redundant job's attempts
--     from api/app/assignment.py.
--   Assignment: api/app/assignment.py, rounds, reclaims and reapers; Rounds counts the rounds of a job,
--     Leases describes the lease reaper apart from its query.
--   AuditLog: api/app/audit_log.py.
--   Matcher: api/app/matcher.py; Dispatch composes it with Assignment.
--   FreeTier: api/app/free_tier.py, the daily quota. FreeCapacity: api/app/free_capacity.py.
--   RateLimit: api/app/ratelimit.py. Chunked: api/app/chunked.py.
--   Chain: api/app/chain; Units is units.py, Events the logs of client.py and their rows, Watcher
--     watcher.py, Settlement settlement.py, whose `tick` is `settle_tick` of Settlement.Debits, and
--     Reconcile reconcile.py.
-- Payments, UsageBilling, Disputes, Results and Chain.Watcher move money only through
-- `Ledger.post_transaction`; Chain.Settlement reads the ledger and writes to the chain.
-- Results takes the payment provider as an argument, as the code takes it from
-- `get_payment_provider`. Adjudicate calls Quorum and Disputes.
--
-- State. An `Action` takes a session and gives back a result or an exception, and the session it
-- leaves. Rows flushed before an exception stay until a rollback; a row that breaks the table's
-- check dooms the transaction. A row that is deleted and not flushed is still found by queries, as
-- the session has no autoflush; Chain.Watcher keeps such rows. Operations on one row, such as `transition`, take the row and give
-- back the new one. Money is an integer number of 0.00000001 USD, a timestamp a number of
-- microseconds, a reputation a number of half points, a UUID a number that is only compared.
-- The clock is an argument. Every loop is structural recursion over a list. Only `Decimal.decimals`
-- runs on fuel, 60 rounds, to find the decimals that give a quotient 28 digits: a quotient of
-- `compute_cost` is 0, which any number of decimals leaves 0, or at least 10^-8, where 36 suffice.
--
-- Parameters: the hash of the audit log, the commitment to a dispute's evidence (sha256 over
-- canonical JSON), the text of a revote's reason, the bytes that a job moved, what Redis answered,
-- and what the chain's client answers during a tick (ChainClient, SettlementClient).
--
-- Not modelled: routes, relay, the scheduler's loops, identity and secrets, and the programs that
-- run on a provider's machine; they are glue over third-party services, or await their own module.
-- Row locks are not modelled: a step of an interleaving is one operation that holds its lock.
pub mod Prelude
pub mod Models
pub mod StateMachine
pub mod Catalog
pub mod Config
pub mod Decimal
pub mod Session
pub mod Ledger
pub mod NodeUsage
pub mod Pricing
pub mod Payments
pub mod UsageBilling
pub mod Quorum
pub mod Penalties
pub mod Disputes
pub mod Adjudicate
pub mod Verification
pub mod Reputation
pub mod Results
pub mod Assignment
pub mod AuditLog
pub mod FreeCapacity
pub mod Chain
pub mod RateLimit
pub mod FreeTier
pub mod Chunked
pub mod Matcher
