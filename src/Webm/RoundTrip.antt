-- ===== src/Webm/RoundTrip.antt =====
-- zenwebm: what the writer writes, the reader reads.
pub mod Placed
pub mod Heads
pub mod Groups
pub mod WholeGroup
pub mod Packets
pub mod Sizes
pub mod Steps
pub mod BlockSteps
pub mod TimeSteps
pub mod Lengths
pub mod Clusters
pub mod Writing
pub mod Closing
pub mod VideoTracks
