-- ===== src/Mods.antt =====
-- The texture packs: src/mods.cpp.
pub mod Packs
pub mod Published
mod Tests
