-- ===== src/Words.antt =====
-- Words of a file over UDP, "Assignment 2": wordserver.c sends the words that wordclient.c asks for,
-- one after the other.
pub mod Programs
pub mod Retrieve
mod Tests
