-- ===== src/Param.antt =====
-- src/pwg-param.c: a parameter of a PipeWire object, a copy of the bytes of a SPA POD.
pub mod Pod
pub mod Bounds
pub mod Format
pub mod Build
pub mod Controls
mod Witnesses
