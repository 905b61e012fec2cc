-- ===== src/Ktp/Invariant.antt =====
-- Every reachable shared array is well formed.
pub mod Defs
pub mod Calls
pub mod Receive
pub mod Send
pub mod Reach
