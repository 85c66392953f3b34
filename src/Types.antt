-- ===== src/Types.antt =====
-- lueur-cli/src/types.rs: the enumerations and fault descriptions of the configuration.
mod Tests
pub mod Direction
pub mod StreamSide
pub mod LatencyDistribution
pub mod PacketLossType
pub mod BandwidthUnit
pub mod FaultConfiguration
