-- ===== src/Hud.antt =====
-- src/hudrewrite.cpp and include/hh/hudid.h: the copy of a display list into scratch memory, with
-- RT64's extended commands around the classified elements of the HUD. The trace is not modelled.
pub mod Memory
pub mod Identity
pub mod Gbi
pub mod Writer
pub mod Copy
pub mod Rewrite
mod Tests
