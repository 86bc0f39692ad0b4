-- ===== src/Proxy.antt =====
-- src/proxy.rs and src/ghub_init.rs: the wheel's reports on their way to the console, and the
-- console's requests, rev lights and force feedback the other way.
pub mod Hidpp
pub mod Input
pub mod RevLights
pub mod Ins
pub mod Wheel
pub mod Requests
pub mod Repeat
pub mod Serve
pub mod Loop
pub mod Sent
pub mod Own
pub mod Ping
pub mod Ffb
pub mod Upstream
pub mod Recovery
pub mod Written
pub mod Layout
pub mod Presented
pub mod Run
pub mod Forwarded
pub mod FfbPath
pub mod InPath
pub mod FfbIn
pub mod InputPath
pub mod HidppPath
pub mod Sampler
pub mod GhubInit
mod InputExamples
mod Examples
mod Ep0Examples
mod FfbExamples
mod RunExamples
mod HidppExamples
