-- ===== src/Census.antt =====
-- src/dlcensus.cpp: the walk of a display list that counts its commands, snaps its overscan scissors to
-- the full frame and places its two-dimensional elements for the inspector. What it prints is not
-- modelled; the text of a viewport, a scissor or a projection is, since the walk tells them apart by it.
pub mod State
pub mod Geometry
pub mod Elements
pub mod Commands
pub mod Feeding
pub mod Walk
pub mod Steps
pub mod Snaps
pub mod Bounded
mod Tests
