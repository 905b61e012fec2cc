-- ===== src/Ktp/Send.antt =====
-- What the sending side does: the queue of messages, the ACKs that shorten it, the window that is
-- sent and the packets that leave.
pub mod Queue
pub mod Release
pub mod Advance
pub mod Transmit
pub mod Round
pub mod Wrap
pub mod InStep
