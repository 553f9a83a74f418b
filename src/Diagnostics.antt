-- ===== src/Diagnostics.antt =====
-- The diagnostics of the Windows build: src/crash_handler.cpp and src/thread_sampler.cpp. What the
-- system answers is an argument.
pub mod Hang
pub mod Crash
pub mod Watching
pub mod Sampler
pub mod Tally
pub mod Counted
mod Tests
