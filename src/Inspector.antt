-- ===== src/Inspector.antt =====
-- src/inspector.cpp: the classes of the HUD's elements, by name, the file they are kept in, what the panel
-- changes of them and the frames that it lists. The drawing with ImGui is not modelled.
pub mod Overrides
pub mod Panel
pub mod Frames
pub mod Saved
pub mod Restart
pub mod Choice
pub mod Shown
mod Tests
