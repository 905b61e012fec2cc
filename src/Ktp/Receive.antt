-- ===== src/Ktp/Receive.antt =====
-- What the receiving thread does with DATA packets.
pub mod Deliver
pub mod Total
pub mod Offset
