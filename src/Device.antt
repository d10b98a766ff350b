-- ===== src/Device.antt =====
-- src/pwg-device.c, the wrapper of one PipeWire device. `State` has the object, `Operations` its
-- events and stop, `Control` start and sync, and `Enumeration` the requests for parameters.
-- `OnCore` is about its core, and the others relate a device to a node.
pub mod State
pub mod Operations
pub mod Control
pub mod Enumeration
pub mod History
pub mod Stopping
pub mod Mirror
pub mod Asking
pub mod Requests
pub mod Same
pub mod OnCore
mod Witnesses
