-- ===== src/Registry.antt =====
-- src/pwg-registry.c, the globals of a PipeWire core as a list of the main context. `State` has the
-- object and its events, `Dispatch` the way of an event from the PipeWire thread to the list,
-- `Control` start, stop, sync and the loss of the core, and `Lookup` the searches; the others are
-- proofs: `Distinct` of the list, `Refinement` of its view as a map, `Session` and `Ending` of what
-- starts and ends a session, `Arriving` of the changes that come during a sync, `Searches` of the
-- lookups and the sync. `OnCore` is about its core.
pub mod State
pub mod Dispatch
pub mod Control
pub mod Lookup
pub mod Distinct
pub mod Refinement
pub mod Session
pub mod Ending
pub mod Arriving
pub mod Searches
pub mod OnCore
mod Witnesses
