-- ===== src/Chain.antt =====
-- The per-tenant hash chain of vargate_telemetry/chain.py over the table of
-- vargate_telemetry/models/records.py. The database is a list of rows, newest first. The package
-- vargate_audit_chain is a parameter, `AuditChain`.
pub mod Hex
pub mod Json
pub mod Package
pub mod Table
pub mod Append
pub mod Stored
pub mod Linkage
pub mod Appends
pub mod Interleaving
pub mod Verification
pub mod Tampering
pub mod Isolation
pub mod Toy
pub mod Examples
