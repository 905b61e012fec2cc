-- ===== src/Ktp.antt =====
-- KTP, the reliable transport over UDP of "Assignment 4 Final": its data, the library calls of
-- ksocket.c, and the threads of initksocket.c.
pub mod Types
pub mod Window
pub mod Packet
pub mod Socket
pub mod Receiver
pub mod Rthread
pub mod Sender
pub mod Init
pub mod System
pub mod Buffers
pub mod Invariant
pub mod Receive
pub mod Send
pub mod Calls
pub mod Reclaim
pub mod Files
pub mod Transfer
mod Tests
