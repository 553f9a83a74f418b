-- ===== src/Libultra.antt =====
-- src/libultra_stubs.cpp and src/spin_yield.cpp: the libultra routines that the port supplies itself,
-- and how long a spinning thread waits.
pub mod Convert
pub mod Exact
pub mod Spin
mod Tests
