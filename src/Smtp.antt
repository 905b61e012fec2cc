-- ===== src/Smtp.antt =====
-- The mail server of "Assignment 6/mysmtp_server.c": addresses, and the dialogue with a client.
pub mod Address
pub mod State
pub mod Session
pub mod Mailbox
pub mod Lines
pub mod Stored
pub mod RoundTrip
pub mod Listed
pub mod Valid
pub mod Commands
pub mod Rounds
pub mod Domain
pub mod Permitted
mod Tests
