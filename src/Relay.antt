-- ===== src/Relay.antt =====
-- src/relay.rs: DriveHub on the USB-A port, passed through to the console.
pub mod Forward
pub mod Run
pub mod Ep0
pub mod Ep0Safety
pub mod Upstream
pub mod Downstream
mod Examples
mod UpstreamExamples
mod Ep0Examples
