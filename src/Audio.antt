-- ===== src/Audio.antt =====
-- src/audio: the audio path from packet sequence numbers to timestamps.
pub mod Pops
pub mod Timeline
