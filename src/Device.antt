-- ===== src/Device.antt =====
-- src/device.rs: the native-port USB device.
pub mod Packet
pub mod Tables
pub mod Profile
pub mod Control
pub mod Requests
pub mod Link
pub mod Streams
pub mod Stats
pub mod Accounted
pub mod Queued
pub mod Delivery
pub mod Builder
pub mod Found
pub mod Task
mod StatsExamples
mod Examples
mod BuilderExamples
