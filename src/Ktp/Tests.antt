-- ===== src/Ktp/Tests.antt =====
-- The theorems on KTP at concrete sockets.
mod Receiving
mod Sending
mod Calling
mod Files
