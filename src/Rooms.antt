-- ===== src/Rooms.antt =====
-- The servers of the laboratory test LT1, which keep up to five clients in slots: a chat in LT1_SetA
-- and a contest of numbers in LT1_SetB.
pub mod Slots
pub mod Chat
pub mod Contest
pub mod Loops
pub mod Stalled
pub mod Relay
pub mod Seats
pub mod Full
mod Tests
pub mod Maximum
