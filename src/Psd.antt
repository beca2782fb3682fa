-- ===== src/Psd.antt =====
-- zenpsd/src: the PSD and PSB decoder.
pub mod Types
pub mod Header
pub mod PackBits
pub mod Prediction
pub mod Metadata
pub mod Resources
pub mod Layout
pub mod At
pub mod Alloc
pub mod Output
pub mod Interleave
pub mod Merged
mod Tests
