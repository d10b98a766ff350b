-- ===== src/Link.antt =====
-- src/pwg-link.c, the wrapper of one PipeWire link. `State` has the object, `Operations` its events
-- and stop, `Control` start and sync; `Steady` and `History` are about what holds between any two
-- operations, and `Shown` about what the application reads of the events of PipeWire.
-- `OnCore` is about its core.
pub mod State
pub mod Operations
pub mod Control
pub mod Steady
pub mod History
pub mod Shown
pub mod OnCore
mod Witnesses
