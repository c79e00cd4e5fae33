-- ===== src/Ledger.antt =====
-- The application services of the ledger
-- (micro/ledger/internal/application/service): credits, payments and statements.
pub mod Unwritten
pub mod Holds
pub mod Migrated
pub mod Rules
pub mod Credit
pub mod Payment
pub mod Views
pub mod Query
pub mod Statements
pub mod Frame
pub mod Always
pub mod Quiet
pub mod Keys
pub mod Records
pub mod Saga
pub mod Balance
pub mod Sound
pub mod Books
pub mod Atomic
pub mod Replay
pub mod Retry
pub mod Keyed
pub mod Kept
pub mod Again
pub mod Either
pub mod Certain
