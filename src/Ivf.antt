-- ===== src/Ivf.antt =====
-- zenivf/src/lib.rs: the IVF reader and writer.
pub mod Types
pub mod Reading
pub mod Seeking
pub mod Demuxer
pub mod Muxer
pub mod Frames
pub mod Found
pub mod RoundTrip
pub mod WholeFile
mod Tests
