-- ===== src/TaskQueue.antt =====
-- The task queue server of "Assignment 5/server.c": the queue in shared memory, the loop of the
-- process that serves a client, all these processes together, and client.c.
pub mod Queue
pub mod Client
pub mod Worker
pub mod Reckon
pub mod Turns
pub mod System
pub mod Assign
pub mod NextTask
pub mod Ownership
pub mod Rounds
pub mod Load
pub mod Idle
pub mod Reach
mod Tests
