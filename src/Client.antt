-- ===== src/Client.antt =====
-- The SMTP client.
pub mod Fsm
pub mod Connection
pub mod Handlers
pub mod Messages
pub mod Io
pub mod Batch
pub mod Pool
pub mod Parser
pub mod Select
pub mod Files
mod Examples
