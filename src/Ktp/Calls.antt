-- ===== src/Ktp/Calls.antt =====
-- What an application may rely on when it makes the calls of ksocket.c, and where it may not.
pub mod Errors
pub mod Claim
pub mod Delivery
