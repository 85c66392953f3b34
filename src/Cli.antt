-- ===== src/Cli.antt =====
-- lueur-cli/src/cli.rs: the options of `run`, their defaults and their validators. What `clap` finds
-- for a field is a parameter, under the field's name, as are the parsers of numbers.
pub mod Validators
pub mod Options
pub mod Laws
mod Tests
use lueur.Prelude.{String, ℕ, Bool, Option, List}
use lueur.Types.Direction.{Direction}
use lueur.Types.StreamSide.{StreamSide}
use lueur.Types.LatencyDistribution.{LatencyDistribution}
use lueur.Types.BandwidthUnit.{BandwidthUnit}

pub record ProxyAwareCommandCommon : Type 0 where
  pub proxy_address : Option String
  pub ebpf : Bool
  pub iface : Option String
  pub grpc_plugins : List String
  pub upstream_hosts : List String

pub record LatencyOptions (F : Type 0) : Type 0 where
  pub enabled : Bool
  pub global : Bool
  pub side : StreamSide
  pub latency_direction : Direction
  pub latency_distribution : LatencyDistribution
  pub latency_mean : F
  pub latency_stddev : F
  pub latency_shape : F
  pub latency_scale : F
  pub latency_min : F
  pub latency_max : F

pub record BandwidthOptions : Type 0 where
  pub enabled : Bool
  pub side : StreamSide
  pub bandwidth_direction : Direction
  pub bandwidth_rate : ℕ
  pub bandwidth_unit : BandwidthUnit

pub record JitterOptions (F : Type 0) : Type 0 where
  pub enabled : Bool
  pub jitter_direction : Direction
  pub jitter_amplitude : F
  pub jitter_frequency : F

pub record DnsOptions : Type 0 where
  pub enabled : Bool
  pub dns_rate : ℕ

pub record PacketLossOptions : Type 0 where
  pub enabled : Bool
  pub side : StreamSide
  pub packet_loss_direction : Direction

pub record PacketDuplicationOptions (F : Type 0) : Type 0 where
  pub enabled : Bool
  pub packet_duplication_direction : Direction
  pub packet_duplication_probability : F

pub record HttpResponseOptions (F : Type 0) : Type 0 where
  pub enabled : Bool
  pub http_response_status_code : ℕ
  pub http_response_body : Option String
  pub http_response_trigger_probability : F

pub record RunCommandOptions (F : Type 0) : Type 0 where
  pub common : ProxyAwareCommandCommon
  pub http_error : HttpResponseOptions F
  pub latency : LatencyOptions F
  pub bandwidth : BandwidthOptions
  pub jitter : JitterOptions F
  pub dns : DnsOptions
  pub packet_loss : PacketLossOptions
  pub packet_duplication : PacketDuplicationOptions F
