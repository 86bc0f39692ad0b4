-- ===== src/Platform.antt =====
-- What the firmware takes from its libraries (embassy-sync, embassy-usb-host, embassy-time), as
-- records of operations with the documented behaviour that the code relies on.
pub mod Channel
pub mod Usb
pub mod Actions
