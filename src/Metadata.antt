-- ===== src/Metadata.antt =====
-- src/pwg-metadata.c, a metadata object of PipeWire and its cache. `Decimal` has the printing of
-- numbers, `Cache` the entries and their keys, `State` the object, `Operations` its events, `Control`
-- start, sync, stop, set and clear, and `Names` the node names in the entries. `Keys` and `Refinement`
-- are proofs of the cache, `Steady` and `History` of the object.
-- `OnCore` is about its core.
pub mod Decimal
pub mod Cache
pub mod State
pub mod Operations
pub mod Control
pub mod Keys
pub mod Steady
pub mod Calls
pub mod History
pub mod OnCore
pub mod Names
pub mod Refinement
mod Witnesses
