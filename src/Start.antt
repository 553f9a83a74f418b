-- ===== src/Start.antt =====
-- src/main.cpp: the directories, the command line, and the start of the runtime, as the actions that it
-- takes in their order. The build is the one with the runtime, the recompiled code and the frontend.
pub mod Paths
pub mod Main
pub mod Verified
mod Tests
