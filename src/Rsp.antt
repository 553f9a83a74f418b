-- ===== src/Rsp.antt =====
-- src/callbacks.cpp, the RSP tasks: which microcode runs a task, the run of the audio microcode from a
-- private copy of its command list, and the search for the command that broke a failed task. The
-- watchdog and what is printed are not modelled.
pub mod Task
pub mod Bisect
pub mod Watched
pub mod Private
pub mod First
mod Tests
