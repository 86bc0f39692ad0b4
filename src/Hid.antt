-- ===== src/Hid.antt =====
-- src/hid.rs: the HID interfaces of a device, its report descriptors, and what is read of it.
pub mod Descriptor
pub mod Keys
pub mod Reports
pub mod Scan
pub mod Items
pub mod Finder
pub mod Interfaces
pub mod Probe
pub mod Reads
pub mod Monitor
pub mod Watch
pub mod Gaps
pub mod Hex
pub mod HexRead
mod Examples
mod ProbeExamples
mod HexExamples
