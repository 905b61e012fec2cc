-- ===== src/Cipher.antt =====
-- File encryption over TCP, "Assignment 3": doencfileserver.c encrypts what retrieveencfileclient.c
-- sends, and sends it back.
pub mod Programs
pub mod Transfer
mod Tests
