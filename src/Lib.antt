-- ===== src/Lib.antt =====
-- The ledger service of the microservice workspace (micro/ledger): what it does to its books, whom
-- it lets in, and what it sends out. And the gateway of the web client (bff), which calls it: whom
-- it lets through to an operation, and what it asks of the services behind it.
--
-- The service takes gRPC calls. Each passes the error interceptor and the authorization
-- interceptor, is turned into a command by validation, and runs a use case: a credit to an account,
-- a payment between accounts, or a read. A use case asks the accounts service over the network and
-- writes journals, payments, outbox events and idempotency records in one transaction of
-- PostgreSQL. A worker publishes the outbox events afterwards.
--
-- Files, with the code below micro/ledger/internal that they are about:
-- Base, Base/*: tests, lists, texts (lists of code points), signed numbers, and the monad of code
--   with errors and effects.
-- Domain, Domain/Remote: domain/model, domain/port/in and domain/port/out.
-- Domain/External: what is not part of the repository, as a parameter `X : External`: decimals,
--   identifiers, JSON, the text form of times, and a state `Env` of the world outside that answers
--   each call and decides at each statement whether the database fails for outside reasons. Its
--   `Laws` are documented facts about these packages, which tests show to be satisfiable.
-- Store: infra/out/persistence/gorm/entity and resources/migration; the world of a run is the
--   tables, the state of the transaction, the world outside, and a log of the calls made.
-- Store/Tx: gorm/uow, with what PostgreSQL documents of statements, savepoints and commits.
-- Store/Idempotency, Journals, Payments, Outbox: gorm/adapter, one file for each repository.
-- Store/Calls: domain/port/out, calls that leave the process.
-- Ledger/Rules, Credit, Payment, Views, Query: application/service (EnsureBalanced, CreditAccount,
--   CreditAccountSystem, PostPayment, GetPayment, ListAccountJournalEntries, ListAccountStatement).
-- Ledger/Always, Quiet, Frame, Sound, Keys, Records, Retry, Kept: rules for reasoning about
--   them; Saga, Balance, Books, Atomic, Replay, Again, Keyed, Statements, Either,
--   Certain: the theorems. Holds, Unwritten, Migrated: payments on the table payment_steps as
--   resources/migration/V1__init.sql creates it.
-- Validation/Fields, Requests: infra/in/grpc/validation; Laws, Bounds: the theorems.
-- Delivery: infra/out/messaging/outbox_worker.go; Prefix, Backoff, Drain: the theorems; Rows, Turn,
--   Reliable: what a turn does when nothing fails. Store/Outbox/Claims, Order: what is claimed.
-- Rpc: infra/in/grpc/handler and mapper, and a call through the interceptors as
--   micro/ledger/cmd/ledger/main.go chains them; Reads, Interceptors: what the interceptors do to
--   the database; Served, Whole: the theorems.
-- Security/Keys: the cache of signing keys of infra/security/jwt, with a state of its own;
--   Keys/Cache, Keys/Held: the theorem.
-- Security/Token, Routes, Call, Gate: infra/security (jwt, authz, avp, grpc); Refusals, Access: what
--   the interceptor guarantees.
-- Security/Messages: infra/in/grpc/middleware/error_interceptor.go.
-- Bff/Http: what bff uses of net/http. Bff/Peers: the services behind the gateway, its clock and its
--   parsers, as a parameter `X : Peers`, and the state of a request that is served.
-- Bff/Context, Cookies, Csrf, Redirect: bff/internal/security and
--   bff/internal/client/grpc/outgoing_metadata.go.
-- Bff/Address: bff/internal/util/ip.go. Bff/Routes, Session, Guard, Limit:
--   bff/internal/api/rest/middleware (openapi_security.go, auth_session.go, csrf.go, ratelimit.go);
--   Ended, Confirm, Entry, Protected, Rate: the theorems.
-- Bff/Errors: bff/internal/api/rest/httperr; Faces: the theorem.
-- Bff/Login: bff/internal/api/rest/server/auth_strict.go; Landing, Logout: the theorems.
-- Bff/Pay, Statement: bff/internal/api/rest/v1/web/feature (payments, accounts) with
--   bff/internal/client/grpc/ledgerpayments.go; Ordered, Asked: the theorems. Bff/Shown: the
--   answers of the ledger in the same files, with bff/internal/client/ports/ledgerpayments.go;
--   Shown/Whole: the theorem.
-- Bff/Upstream: a connection to another service; Laws: its lemmas.
-- Bff/Onboarding/Messages, Client, Handlers: bff/internal/client/grpc/identity.go,
--   bff/internal/client/ports/identity.go and bff/internal/api/rest/v1/web/feature/onboarding;
--   Onboarding/Direct: the theorem.
-- Bff/Accounts, Accounts/Operations: bff/internal/client/grpc/accounts.go,
--   bff/internal/client/ports/accounts.go and bff/internal/api/rest/v1/web/feature (accounts,
--   profile); Accounts/Asked: the theorems.
-- Tests, Tests/*: a concrete world, and the theorems at concrete inputs.
--
-- Bounds: all recursion is on lists, texts or a number of turns of the worker's loop, so there is
-- no fuel. Identifiers and times are natural numbers; times count nanoseconds from the start of
-- year 1, pauses of the worker milliseconds. Page numbers are integers.
--
-- The columns of payment_steps in the deployed database are a parameter: the entity writes a column
-- that the migration does not create, so that what is said of payments that succeed is about a
-- database in which this column has been added.
--
-- Not modelled: the separate connection for reads (DB_READ_DSN) is taken to reach the database of
-- the writes, as it does by default; a commit that fails counts as rolled back; lengths and precisions of columns, and
-- the normal form of jsonb; statements run one after another, so that there are no row locks and no
-- interleaving of two calls; a query and the preload of its lines are one statement; how tokens are
-- parsed and signatures checked, so that the cache of keys stands beside the check of a token and
-- not within it; a panic other than that of a mapper on nil; server logs. Configuration, the
-- gateways behind the ports, the services in Java and the web client are left out. Of bff, the
-- ledger's answers with journal entries, the calls of the ledger and the accounts service that no
-- operation makes, and the logs. The value of a cookie is taken to be one that net/http writes as it
-- is; the buckets of the rate limit are served one request at a time.
pub mod Base
pub mod Bff
pub mod Delivery
pub mod Domain
pub mod Ledger
pub mod Rpc
pub mod Security
pub mod Store
pub mod Tests
pub mod Validation
