-- ===== src/Views.antt =====
-- The views of globals of one kind: src/pwg-client-info.c, src/pwg-device-info.c,
-- src/pwg-link-info.c, src/pwg-node-info.c and src/pwg-port-info.c.
pub mod Truth
pub mod ClientInfo
pub mod DeviceInfo
pub mod LinkInfo
pub mod NodeInfo
pub mod PortInfo
