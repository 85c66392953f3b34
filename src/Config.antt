-- ===== src/Config.antt =====
-- lueur-cli/src/config.rs: the settings of each fault, and the proxy's configuration. `F` is `f64`.
pub mod FromCli
use lueur.Prelude.{String, ℕ, Bool, Option, List}
use lueur.Types.Direction.{Direction}
use lueur.Types.StreamSide.{StreamSide}
use lueur.Types.LatencyDistribution.{LatencyDistribution}
use lueur.Types.BandwidthUnit.{BandwidthUnit}

pub record LatencySettings (F : Type 0) : Type 0 where
  pub distribution : LatencyDistribution
  pub direction : Direction
  pub global : Bool
  pub side : StreamSide
  pub latency_mean : F
  pub latency_stddev : F
  pub latency_shape : F
  pub latency_scale : F
  pub latency_min : F
  pub latency_max : F

pub record PacketLossSettings : Type 0 where
  pub direction : Direction
  pub side : StreamSide

pub record BandwidthSettings : Type 0 where
  pub direction : Direction
  pub side : StreamSide
  pub bandwidth_rate : ℕ
  pub bandwidth_unit : BandwidthUnit

pub record JitterSettings (F : Type 0) : Type 0 where
  pub direction : Direction
  pub jitter_amplitude : F
  pub jitter_frequency : F

pub record DnsSettings : Type 0 where
  pub direction : Direction
  pub dns_rate : ℕ

pub record PacketDuplicationSettings (F : Type 0) : Type 0 where
  pub direction : Direction
  pub packet_duplication_probability : F

pub record HttpResponseSettings (F : Type 0) : Type 0 where
  pub http_response_status_code : ℕ
  pub http_response_body : Option String
  pub http_response_trigger_probability : F

pub data FaultConfig (F : Type 0) : Type 0 where
  dns : DnsSettings → FaultConfig F
  latency : LatencySettings F → FaultConfig F
  packet_loss : PacketLossSettings → FaultConfig F
  bandwidth : BandwidthSettings → FaultConfig F
  jitter : JitterSettings F → FaultConfig F
  packet_duplication : PacketDuplicationSettings F → FaultConfig F
  http_error : HttpResponseSettings F → FaultConfig F

unfoldable pub display : {F : Type 0} → FaultConfig F → String
display (dns _) = "dns"
display (latency _) = "latency"
display (packet_loss _) = "packet-loss"
display (bandwidth _) = "bandwidth"
display (jitter _) = "jitter"
display (packet_duplication _) = "packet-duplication"
display (http_error _) = "http-error"

pub record ProxyConfig (F : Type 0) : Type 0 where
  pub faults : List (FaultConfig F)
