-- ===== src/Core.antt =====
-- src/pwg-core.c, the connection to PipeWire. `Connection` has the object, `Sync` the round trip to
-- PipeWire and back to the main context; `Connecting`, `Lifecycle`, `Waiting` and
-- `Verdict` are their proofs. `Clients` is the core with the wrappers that share it, and `Sharing` its
-- proofs.
pub mod Connection
pub mod Sync
pub mod Connecting
pub mod Clients
pub mod Sharing
pub mod Either
pub mod Lifecycle
pub mod Waiting
pub mod Verdict
mod Witnesses
