-- ===== src/Lib.antt =====
-- The backend of a shipping aggregator (backend/, in Go): sellers create orders, have them booked
-- with a carrier as shipments, follow the carriers' events, and pay from a wallet. This library
-- models the parts that hold the rules and proves what they keep.
--
-- The parts and how they interact:
--
-- - Wallet (backend/internal/wallet; backend/migrations/0009_wallet.up.sql). A seller has an account,
--   holds on it and a ledger. Rows holds the tables, Repo the queries of repo.go with the
--   constraints and the row policies, Service the operations of service_impl.go (EnsureAccount is
--   `ensure`, Credit `credit_account`, Debit `debit_account`, then `reserve`, `confirm`, `release`,
--   `balance`). Effects, Totals, Consistent, Postings and Invariant carry the proofs; Runs, Guards,
--   Replays and Breaks the theorems.
-- - Orders (backend/internal/orders; migrations 0011, 0023 and 0024). State holds the state machine of
--   service.go, Rows the tables, Repo the queries of repo.go, Service the operations of
--   service_impl.go (Cancel is `cancel_order`, Close `close_order`, MarkX `mark_x`), Update its
--   Update with the statement that it builds. Moves is the step relation that the calls of Calls
--   refine; History and Final hold the theorems.
-- - Shipments (backend/internal/shipments; migration 0013). Rows and Store hold the tables and the
--   queries, Service the operations of service_impl.go, which call the order service: Book is
--   `book_shipment`, its parts are named for what they follow (`after_phase_a`, `after_reply`,
--   `after_confirm`), and Cancel is `cancel_shipment`. Moves is the step relation; Phases,
--   Steps and Calls show that the operations refine it; Sound, Booking and Unready hold the theorems.
-- - Tracking (backend/internal/tracking/tracking.go). Status brings a carrier's status to a canonical
--   one (normalise, toLower, contains), Service ingests events (IngestEvents, PollNow) and moves
--   the shipments through their service; Moves carries the proofs, Contains, Polls and Keyed the theorems.
-- - Carriers (backend/internal/carriers/breaker.go). Breaker holds the circuit breaker and the guarded
--   calls, Probes the theorems.
-- - Pricing (backend/internal/pricing/pricing.go; migration 0012). Engine resolves the card and prices
--   a parcel (Quote is `quote`, QuoteAll `quote_all`); Cards and Weights hold the theorems.
-- - Cod (backend/internal/cod/cod.go; migration 0015). Service holds the rows and the operations, which
--   credit the wallet; Settled and Credits carry the proofs, Runs and Retries the theorems.
-- - Recon (backend/internal/recon/recon.go; migration 0016). Service holds the discrepancies and the
--   operations, of which Post debits the wallet; Final holds the theorems.
-- - Policy (backend/internal/policy; migration 0007). Values, Keys and Definitions hold the settings,
--   Cache the cache of a process, Rows the tables; Resolve is Resolve with its batch forms, Engine the
--   rest of service_impl.go (SetSellerOverride is `set_override`, RemoveSellerOverride
--   `remove_override`, New `new_engine`). Effective says what a setting is meant to be; Overrides and
--   Moves carry the proofs; Runs, Settings and Types the theorems.
-- - Contracts (backend/internal/contracts/contracts.go; migration 0017). Rows holds the contracts,
--   Coerce valueForType, Service the operations, which write a contract's terms to the policy engine;
--   Signed and Terms hold the theorems.
-- - Limits (backend/internal/limits/limits.go, and the handler that creates orders in
--   backend/api/http/handlers/orders.go). Guard asks the policy engine for a cap and counts; Caps holds
--   the theorems.
-- - Audit (backend/internal/audit; migration 0004). Chain holds the hash of an event and VerifyChain,
--   Service Emit and the verification of all chains; Intact and Emitted hold the theorems.
-- - Outbox (backend/internal/outbox; migration 0005). Forwarder holds the emitter, the forwarder, the
--   registry and the worker; Delivery and Lost hold the theorems.
-- - Idempotency (backend/internal/idempotency/idempotency.go; migration 0006). Middleware holds the
--   middleware around a handler; Replay the theorems.
-- - Sessions (backend/internal/auth). Cache holds the cache of sessions, Service the authenticator;
--   Authenticate is split at its query (`read_session`, `finish`), since no lock joins the two; Shut
--   carries the proofs, Revoked the theorems.
-- - Money (backend/internal/core/money.go): the arithmetic of paise; Money/Exact holds the theorems.
-- - Prelude: integers over the native numbers, int64 with its wrap-around, tables as lists of rows,
--   and transactions (backend/internal/observability/dbtx): a body that fails rolls its tables
--   back. The errors are the sentinels of backend/internal/core/errors.go, with
--   `limit_reached` for limits.ErrLimitExceeded, `plain` for an
--   error that wraps none of them and `database` for one that Postgres raises.
--
-- Conventions. State is passed on explicitly, and a call answers with a result and the tables that
-- it leaves. A transaction is one step, since its rows are locked; calls are sequences of such
-- steps. A query is modelled with the constraints of its table and with the seller of its
-- transaction, whose rows alone it sees. An identifier is a number (0 is the empty one), an instant
-- a number of nanoseconds. Go's int64 amounts are integers, wrapped around where the code adds,
-- negates or multiplies them; counters such as the breaker's stay far below the range of int. All
-- loops run over lists that are there, so that no fuel is needed. Where a pool decides whether row
-- policies apply, the role is an argument (Audit, Idempotency); contracts run on the administrator's
-- pool; cash on delivery and reconciliation, which the program's start does not wire up, run on a
-- pool without them. An argument called `down`, `refused` or `faults` says which statements fail.
--
-- Parameters: identifiers that uuid.New draws and the clock are arguments of each operation; the
-- carriers' adapters, the hash and the printing of time in tracking, the sort by time, the regular
-- expressions of the pincodes, the hash of an audit event and of a token with the texts of ids,
-- times and JSON, the numbers and lists in the terms of a contract, the starts of days and months,
-- the handler behind the idempotency middleware, the users and roles of a session, and whether the
-- database takes a statement with so many placeholders and arguments (Orders/Update) are arguments
-- of what uses them. Freshness of a drawn identifier is a hypothesis where it matters.
--
-- Not modelled: returns, non-delivery, sellers, allocation and risk, which hold rules of their own;
-- reads that page through tables (List, ListByPickupDate, ListEventsByShipment); printing and JSON
-- of money; HTTP handlers but the one that creates orders, vendor adapters, configuration, logging
-- and start-up, which are input and output. Other processes meet one that is modelled only in the
-- tables; none of them listens to the notices that the policy engine and the sessions send. A COMMIT
-- that fails and a connection that is lost are left out. Rows of sellers, users, pickup locations,
-- shipments and batches that other rows name are taken to be there, and integers that a request
-- carries to be in the range of their columns.
pub mod Prelude
pub mod Audit
pub mod Carriers
pub mod Cod
pub mod Contracts
pub mod Idempotency
pub mod Limits
pub mod Money
pub mod Orders
pub mod Outbox
pub mod Policy
pub mod Pricing
pub mod Recon
pub mod Sessions
pub mod Shipments
pub mod Tracking
pub mod Wallet
