-- ===== src/Platform.antt =====
-- src/callbacks.cpp, the pads, the window and the main loop: what SDL and the frontend answer is an
-- argument of each call.
pub mod Pads
pub mod Input
pub mod Window
pub mod Loop
pub mod Players
pub mod Fits
pub mod Saves
mod Tests
