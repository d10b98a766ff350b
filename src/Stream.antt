-- ===== src/Stream.antt =====
-- src/pwg-stream.c, the capture stream. `State` has the records, `Queue` the operations of the
-- PipeWire thread on what is pending, `Dispatch` the source that the main context runs, `Process`
-- the callbacks of PipeWire, and `Control` the functions that an application calls. The other
-- modules are proofs: `Backlog` of the queue of blocks, `Invariant` of what holds between any two
-- operations.
pub mod State
pub mod Queue
pub mod Dispatch
pub mod Process
pub mod Control
pub mod Backlog
pub mod Invariant
pub mod Callbacks
pub mod Calls
pub mod History
pub mod Turn
pub mod Machine
pub mod Peak
pub mod Frames
pub mod Delivery
pub mod Buffer
pub mod Capture
pub mod Starting
pub mod RateSteps
pub mod GraphRate
mod Examples
mod Witnesses
