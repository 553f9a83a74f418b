-- ===== src/AudioDiag.antt =====
-- src/audiodiag.cpp: the statistics of the sound output over windows of two seconds, and the dump of what
-- is handed to the device into WAV files. What is printed is seen as the verdict that it states.
pub mod Window
pub mod Wav
pub mod Calls
pub mod Read
pub mod Whole
mod Tests
