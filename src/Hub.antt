-- ===== src/Hub.antt =====
-- src/hub.rs: the devices on the hub's ports and the children that serve them.
pub mod Ports
pub mod Assigned
pub mod Lost
pub mod Reset
pub mod Enumerate
pub mod Errors
pub mod Children
pub mod Addresses
pub mod RoundTrip
mod Examples
