-- ===== src/Video.antt =====
-- src/video: frames put together from packets, their colours, and their timestamps.
pub mod Assemble
pub mod Color
pub mod Frame
pub mod Render
pub mod Timestamps
