-- ===== src/Config/FromCli.antt =====
-- The `From` implementations of lueur-cli/src/config.rs: the settings and the configuration that the
-- options of the command line give.
use lueur.Prelude.{Bool, List, [], ◌∷◌, if◌then◌else◌}
use lueur.Types.Direction.{egress}
use lueur.Cli.{
  RunCommandOptions, LatencyOptions, BandwidthOptions, JitterOptions, DnsOptions, PacketLossOptions,
  PacketDuplicationOptions, HttpResponseOptions,
}
use lueur.Config.{
  LatencySettings, BandwidthSettings, JitterSettings, DnsSettings, PacketLossSettings,
  PacketDuplicationSettings, HttpResponseSettings, FaultConfig, latency, bandwidth, dns, jitter,
  packet_loss, packet_duplication, http_error, ProxyConfig,
}

from_bandwidth : BandwidthOptions → BandwidthSettings
from_bandwidth cli = record {
  direction = cli.bandwidth_direction;
  side = cli.side;
  bandwidth_rate = cli.bandwidth_rate;
  bandwidth_unit = cli.bandwidth_unit;
}

unfoldable pub from_dns : DnsOptions → DnsSettings
from_dns cli = record { direction = egress; dns_rate = cli.dns_rate }

from_packet_loss : PacketLossOptions → PacketLossSettings
from_packet_loss cli = record { direction = cli.packet_loss_direction; side = cli.side }

module _ {F : Type 0} where
  unfoldable pub from_latency : LatencyOptions F → LatencySettings F
  from_latency cli = record {
    distribution = cli.latency_distribution;
    direction = cli.latency_direction;
    global = cli.global;
    side = cli.side;
    latency_mean = cli.latency_mean;
    latency_stddev = cli.latency_stddev;
    latency_shape = cli.latency_shape;
    latency_scale = cli.latency_scale;
    latency_min = cli.latency_min;
    latency_max = cli.latency_max;
  }

  from_jitter : JitterOptions F → JitterSettings F
  from_jitter cli = record {
    direction = cli.jitter_direction;
    jitter_amplitude = cli.jitter_amplitude;
    jitter_frequency = cli.jitter_frequency;
  }

  from_packet_duplication : PacketDuplicationOptions F → PacketDuplicationSettings F
  from_packet_duplication cli = record {
    direction = cli.packet_duplication_direction;
    packet_duplication_probability = cli.packet_duplication_probability;
  }

  unfoldable pub from_http_response : HttpResponseOptions F → HttpResponseSettings F
  from_http_response cli = record {
    http_response_status_code = cli.http_response_status_code;
    http_response_body = cli.http_response_body;
    http_response_trigger_probability = cli.http_response_trigger_probability;
  }

  -- `push` under an `if`, before the faults that are pushed later.
  push_if : Bool → FaultConfig F → List (FaultConfig F) → List (FaultConfig F)
  push_if enabled fault later = if enabled then fault ∷ later else later

  unfoldable pub from : RunCommandOptions F → ProxyConfig F
  unfolding from_latency from_bandwidth from_jitter from_dns from_packet_loss
      from_packet_duplication from_http_response push_if
  from cli = record {
    faults = push_if cli.latency.enabled (latency (from_latency cli.latency)) (
        push_if cli.bandwidth.enabled (bandwidth (from_bandwidth cli.bandwidth)) (
          push_if cli.dns.enabled (dns (from_dns cli.dns)) (
            push_if cli.jitter.enabled (jitter (from_jitter cli.jitter)) (
              push_if cli.packet_loss.enabled (packet_loss (from_packet_loss cli.packet_loss)) (
                push_if cli.packet_duplication.enabled
                  (packet_duplication (from_packet_duplication cli.packet_duplication))
                  (push_if cli.http_error.enabled (http_error (from_http_response cli.http_error))
                    []))))));
  }
