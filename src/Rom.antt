-- ===== src/Rom.antt =====
-- src/rom.cpp and include/hh/rom.h: which cartridge dump a file is, and whether it is the one that the
-- port is built for. The texts of the messages are not modelled, only what they report.
pub mod Trim
pub mod Header
pub mod Verify
pub mod Accept
mod Tests
