-- ===== src/Auth.antt =====
-- src/auth.rs: the relay of the console's authentication.
pub mod State
pub mod Console
pub mod Replies
pub mod Signer
pub mod Poll
pub mod Publish
pub mod Handle
pub mod Nonce
pub mod Safety
mod Examples
