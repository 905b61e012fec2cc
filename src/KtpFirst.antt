-- ===== src/KtpFirst.antt =====
-- The first version of the reliable transport, "Assignment 4 Initial": ksocket.c, and the threads of
-- initksocket.c.
pub mod Types
pub mod Packet
pub mod Receiver
pub mod Sender
pub mod Socket
pub mod Init
pub mod Window
pub mod Arrivals
pub mod Reads
pub mod Delivery
pub mod RoundTrip
pub mod Outbox
pub mod Queueing
pub mod Accepted
pub mod Outgoing
pub mod Sending
pub mod Rounds
pub mod Course
pub mod Files
mod Tests
