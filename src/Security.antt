-- ===== src/Security.antt =====
-- Who may call which method: micro/ledger/internal/infra/security. Bearer tokens, the registry of
-- routes, the resources that requests name, and the interceptor that all of them serve.
pub mod Keys
pub mod Token
pub mod Routes
pub mod Call
pub mod Gate
pub mod Refusals
pub mod Access
pub mod Messages
