-- ===== src/Wire.antt =====
-- src/si_pak.cpp: the joybus transactions.
pub mod Memory
pub mod Crc
pub mod Frame
mod Tests
