-- ===== src/Audio.antt =====
-- src/callbacks.cpp, the part on sound, and the rates of src/resample.cpp: from the game's buffers to
-- the device's queue. SDL is what it answers; the filter of src/resample.cpp is a parameter, since it
-- is floating point.
pub mod Sample
pub mod Rate
pub mod Device
mod Tests
