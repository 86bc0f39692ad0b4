-- ===== src/UartLog.antt =====
-- src/uart_log.rs: the logger.
pub mod Line
pub mod Records
pub mod Accounts
pub mod Task
mod Examples
