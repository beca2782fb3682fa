-- ===== src/Webm.antt =====
-- The zenwebm crate: WebM and Matroska over EBML.
pub mod Error
pub mod Ebml
pub mod Types
pub mod Action
pub mod Muxer
pub mod Demuxer
pub mod RoundTrip
mod Tests
