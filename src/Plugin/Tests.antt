-- ===== src/Plugin/Tests.antt =====
-- A plugin with latency, over requests and streams that count what was done to them.
use lueur.Prelude.{ℕ, Bool, true, false, none, ◌+◌, ◌*◌, ◌≡◌, refl, [], ◌∷◌, ok}
use lueur.Types.Direction
use lueur.Types.StreamSide.{server}
use lueur.Config.{FaultConfig}
use lueur.Plugin.{
  Http, FaultInjector, Injectors, CompositePlugin, empty, set_injectors, load_injectors,
  prepare_client, process_request, process_response, inject_tunnel_faults, inject_all,
}
use lueur.Types.LatencyDistribution.{normal}
use lueur.Types.BandwidthUnit.{bps}
use lueur.Cli.{RunCommandOptions, PacketDuplicationOptions}
use lueur.Plugin.Laws.{of_faults, then_apply, reconfigured_lem}

abbrev counts : Http
counts = record { Builder = ℕ; Request = ℕ; Response = ℕ; Bidirectional = ℕ; E = Unit {0} }

abbrev adds : ℕ → FaultInjector counts
adds n = record {
  inject = λ stream side. stream + n;
  apply_on_request_builder = λ b. ok b;
  apply_on_request = λ r. ok (r * 10 + n);
  apply_on_response = λ r. ok (r * 10 + n);
}

abbrev numbered : Injectors counts ℕ
numbered = record {
  of_dns = λ s. adds 1;
  of_latency = λ s. adds 2;
  of_packet_loss = λ s. adds 3;
  of_bandwidth = λ s. adds 4;
  of_jitter = λ s. adds 5;
  of_http_error = λ s. adds 6;
}

abbrev dns : FaultConfig ℕ
dns = FaultConfig.dns (record { direction = Direction.egress; dns_rate = 50 })

abbrev loss : FaultConfig ℕ
loss = FaultConfig.packet_loss (record { direction = Direction.egress; side = server })

abbrev plugin : CompositePlugin counts
plugin =
    set_injectors counts (adds 9) (empty counts)
      (load_injectors counts numbered (record { faults = dns ∷ loss ∷ [] }))

in_order : process_request counts plugin 0 ≡ ok 139
unfolding process_request set_injectors load_injectors
in_order = refl

reconfigured_lem_example :
    (prepare_client counts plugin 0
      ≡ then_apply counts
          (prepare_client counts (of_faults counts numbered (dns ∷ loss ∷ [])) 0)
          (adds 9).apply_on_request_builder)
    × (process_request counts plugin 0
        ≡ then_apply counts
            (process_request counts (of_faults counts numbered (dns ∷ loss ∷ [])) 0)
            (adds 9).apply_on_request)
    × (process_response counts plugin 0
        ≡ then_apply counts
            (process_response counts (of_faults counts numbered (dns ∷ loss ∷ [])) 0)
            (adds 9).apply_on_response)
    × (inject_tunnel_faults counts plugin 0 100 ≡ ok (13, 113))
unfolding load_injectors inject_all
reconfigured_lem_example =
    reconfigured_lem counts numbered (adds 9) (empty counts) (dns ∷ loss ∷ []) 0 0 0 0 100

abbrev duplicating : Bool → PacketDuplicationOptions ℕ
duplicating enabled = record {
  enabled = enabled;
  packet_duplication_direction = Direction.ingress;
  packet_duplication_probability = 100;
}

-- `--with-dns --with-packet-duplication`
abbrev asked : RunCommandOptions ℕ
asked = record {
  common = record {
    proxy_address = none;
    ebpf = false;
    iface = none;
    grpc_plugins = [];
    upstream_hosts = [];
  };
  http_error = record {
    enabled = false;
    http_response_status_code = 500;
    http_response_body = none;
    http_response_trigger_probability = 1000;
  };
  latency = record {
    enabled = false;
    global = true;
    side = server;
    latency_direction = Direction.ingress;
    latency_distribution = normal;
    latency_mean = 100_000;
    latency_stddev = 20_000;
    latency_shape = 20_000;
    latency_scale = 20_000;
    latency_min = 20_000;
    latency_max = 20_000;
  };
  bandwidth = record {
    enabled = false;
    side = server;
    bandwidth_direction = Direction.ingress;
    bandwidth_rate = 1000;
    bandwidth_unit = bps;
  };
  jitter = record {
    enabled = false;
    jitter_direction = Direction.ingress;
    jitter_amplitude = 20_000;
    jitter_frequency = 5_000;
  };
  dns = record { enabled = true; dns_rate = 50 };
  packet_loss = record {
    enabled = false;
    side = server;
    packet_loss_direction = Direction.ingress;
  };
  packet_duplication = duplicating true;
}
