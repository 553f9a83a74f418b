-- ===== src/Renderer.antt =====
-- How a display list reaches the renderer: src/frontend.cpp, `CensusContext` and the automatic start, and
-- src/renderer.cpp, the context of the build without the frontend. RT64 and the menus are not modelled.
pub mod Submit
pub mod Context
pub mod Submitted
pub mod Autostart
mod Tests
