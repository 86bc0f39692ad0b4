-- ===== src/UsbHost.antt =====
-- src/usb_host.rs: what the USB-A port does with a device.
pub mod Strings
pub mod StringsSafe
pub mod Utf16
pub mod ConfigLog
pub mod HostTask
pub mod Devices
mod Examples
