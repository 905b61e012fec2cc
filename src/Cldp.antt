-- ===== src/Cldp.antt =====
-- The lightweight discovery protocol of "Assignment 7", over raw IP: cldp_server.c announces itself
-- and answers queries, cldp_client.c keeps a list of the servers it has heard and queries them.
pub mod Wire
pub mod Server
pub mod Client
pub mod Checksum
pub mod Exchange
pub mod System
pub mod Servers
pub mod Heard
pub mod Silence
mod Tests
