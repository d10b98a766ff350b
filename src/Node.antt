-- ===== src/Node.antt =====
-- src/pwg-node.c, the wrapper of one PipeWire node. `State` has the object, `Operations` its events
-- and stop, `Control` start and sync, and `Enumeration` the requests for parameters. `Whole`,
-- `Events`, `Begun`, `Waits`, `Reentrant` and `Calling` are about handlers that call back, the
-- other theorems about those that do not. `Calm`, `OnCoreStart`, `OnCoreWaits` and `OnCore` are
-- about the core of a node.
pub mod State
pub mod Operations
pub mod Control
pub mod Enumeration
pub mod Steady
pub mod Starting
pub mod Waiting
pub mod History
pub mod Follow
pub mod Shown
pub mod Brought
pub mod Requests
pub mod Whole
pub mod Events
pub mod Begun
pub mod Waits
pub mod Reentrant
pub mod Calling
pub mod Calm
pub mod OnCoreStart
pub mod OnCoreWaits
pub mod OnCore
mod Witnesses
