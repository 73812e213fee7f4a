-- ===== src/Smtp.antt =====
-- server/src/smtp.c and server/include/smtp.h: the SMTP session of the server.
pub mod Regex
pub mod Session
pub mod Commands
mod Examples
