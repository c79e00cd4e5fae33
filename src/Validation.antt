-- ===== src/Validation.antt =====
-- Request validation of the gRPC adapter of the ledger
-- (micro/ledger/internal/infra/in/grpc/validation).
pub mod Fields
pub mod Requests
pub mod Bounds
pub mod Laws
