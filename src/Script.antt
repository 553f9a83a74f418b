-- ===== src/Script.antt =====
-- src/testdrive.cpp: the scripted input of a test run. Times and sticks are floating point in the code
-- and a parameter here; so is the scan of a line's fields, which the standard library's streams do.
pub mod Buttons
pub mod Entries
mod Tests
