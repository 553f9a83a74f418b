-- ===== src/Pak.antt =====
-- src/controller_pak.cpp and include/hh/controller_pak.h: the Controller Pak's storage.
pub mod Format
pub mod Disk
pub mod Store
mod Tests
