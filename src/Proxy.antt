-- ===== src/Proxy.antt =====
-- lueur-cli/src/proxy: where a request goes, whether its faults are injected, and how it is
-- forwarded or tunnelled.
pub mod Target
pub mod Dispatch
pub mod Listen
pub mod Forward
pub mod Tunnel
mod Tests
