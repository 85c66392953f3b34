-- ===== src/Main/Command/Tests.antt =====
-- A run of two scenarios, of which one cannot be loaded, and of the proxy with one fault.
use lueur.Prelude.{
  ℕ, ◌+◌, str_eq, ◌&&◌, if◌then◌else◌, ◌≡◌, refl, true, false, none, some, List, [], ◌∷◌, Result,
  ok, err, All,
}
use lueur.Prelude.Fixed.{thousandths}
use lueur.Errors.{ScenarioError, read_error}
use lueur.Types.Direction
use lueur.Types.StreamSide.{server}
use lueur.Types.LatencyDistribution.{normal}
use lueur.Types.BandwidthUnit.{bps}
use lueur.Types.FaultConfiguration.Display.{Numbers}
use lueur.Upstream.{upstream_to_addr}
use lueur.Upstream.Fixed.{shop}
use lueur.Cli.{RunCommandOptions}
use lueur.Config.{FaultConfig}
use lueur.Config.FromCli.{from}
use lueur.Nic.{v4, Machine, ProxyEbpfConfig, determine_proxy_and_ebpf_config}
use lueur.Plugin.{Http, FaultInjector, Injectors}
use lueur.Proxy.Dispatch.{ProxyState, new, update_upstream_hosts, on_config}
use lueur.Proxy.Dispatch.Hosts.{Known}
use lueur.Scenario.Items.{ScenarioItem, Scenario, build_item_list}
use lueur.Scenario.Lifecycle.{ScenarioItemLifecycle}
use lueur.Scenario.Execute.{execute_item}
use lueur.Reporting.Items.{ReportItemMetrics, ReportItemProtocol}
use lueur.Reporting.Save.{save}
use lueur.Reporting.Render.{Renderers}
use lueur.Main.{run_items, initialize_proxy}
use lueur.Main.Command.{run_command, Outputs, Answer, number, start_proxy}
use lueur.Main.Command.Laws.{finishes, run_command-started}

abbrev item : ScenarioItem ℕ
item = record {
  call = record { method = "GET"; url = "http://shop/cart"; headers = none; body = none };
  context = record { upstreams = "http://shop" ∷ []; faults = []; strategy = none };
  expect = none;
}

abbrev metrics : ReportItemMetrics ℕ
metrics = record {
  dns = [];
  protocol = some (ReportItemProtocol.http 200 3);
  ttfb = 1;
  total_time = 2;
  faults = [];
}

abbrev seen : ScenarioItemLifecycle ℕ
seen = record { url = "http://shop/cart"; dns_timing = []; fault_declared = none; faults = [] }

abbrev world : ℕ → Answer ℕ
world n = record { request = ok metrics; queued = seen ∷ [] }

abbrev candidates : List (Result (Scenario ℕ) ScenarioError)
candidates =
    err (read_error "old.yaml" "permission denied")
    ∷ ok (record { title = "cart"; description = some "the cart"; scenarios = item ∷ [] })
    ∷ []

abbrev plain : Numbers thousandths
plain = record { show = λ n. "0"; fixed = λ places x. "0.00" }

abbrev uncoloured : Renderers ℕ
uncoloured = record {
  cyan = λ s. s;
  red = λ s. s;
  yellow = λ s. s;
  green = λ s. s;
  capitalize = λ s. s;
  table = λ titles rows. "";
  render = λ rows report. err "no template";
  to_json = λ report. ok "{}";
  to_yaml = λ report. ok "";
}

abbrev disk : Outputs ℕ
disk = record {
  writers = record {
    ends_with = λ path text. str_eq path "results.json" && str_eq text ".json";
    create = λ path. ok tt;
    to_json = λ report. ok tt;
    to_yaml = λ report. err "no YAML";
  };
  extension = λ path. some "json";
}

unfinished : finishes thousandths shop (λ s. s) (λ e. "refused") world disk candidates ≡ false
unfolding run_items execute_item build_item_list save upstream_to_addr number
unfinished = refl

abbrev on_loopback : ProxyEbpfConfig
on_loopback = record {
  proxy_ip = 2130706433;
  proxy_port = 3180;
  proxy_ifindex = 1;
  ebpf_ifindex = 2;
  ebpf_ifname = "eth0";
}

abbrev machine : Machine
machine = record {
  list_afinet_netifas = ok (("lo", v4 2130706433) ∷ ("eth0", v4 3232235810) ∷ []);
  if_nametoindex = λ name. if str_eq name "lo" then ok 1 else ok 2;
  parse_socket_addr = λ address. ok (v4 2130706433, 3180);
}

abbrev numbers : Http
numbers = record { Builder = ℕ; Request = ℕ; Response = ℕ; Bidirectional = ℕ; E = Unit {0} }

abbrev adds : ℕ → FaultInjector numbers
adds n = record {
  inject = λ stream side. stream + n;
  apply_on_request_builder = λ b. ok b;
  apply_on_request = λ r. ok (r + n);
  apply_on_response = λ r. ok (r + n);
}

abbrev injectors : Injectors numbers ℕ
injectors = record {
  of_dns = λ s. adds 1;
  of_latency = λ s. adds 2;
  of_packet_loss = λ s. adds 3;
  of_bandwidth = λ s. adds 4;
  of_jitter = λ s. adds 5;
  of_http_error = λ s. adds 6;
}

abbrev options : RunCommandOptions ℕ
options = record {
  common = record {
    proxy_address = some "127.0.0.1:3180";
    ebpf = false;
    iface = none;
    grpc_plugins = [];
    upstream_hosts = "http://shop" ∷ [];
  };
  http_error = record {
    enabled = false;
    http_response_status_code = 500;
    http_response_body = none;
    http_response_trigger_probability = 1000;
  };
  latency = record {
    enabled = false;
    global = true;
    side = server;
    latency_direction = Direction.ingress;
    latency_distribution = normal;
    latency_mean = 100;
    latency_stddev = 20;
    latency_shape = 20;
    latency_scale = 20;
    latency_min = 20;
    latency_max = 20;
  };
  bandwidth = record {
    enabled = false;
    side = server;
    bandwidth_direction = Direction.ingress;
    bandwidth_rate = 1000;
    bandwidth_unit = bps;
  };
  jitter = record {
    enabled = false;
    jitter_direction = Direction.ingress;
    jitter_amplitude = 20;
    jitter_frequency = 5;
  };
  dns = record { enabled = true; dns_rate = 50 };
  packet_loss = record {
    enabled = false;
    side = server;
    packet_loss_direction = Direction.ingress;
  };
  packet_duplication = record {
    enabled = false;
    packet_duplication_direction = Direction.ingress;
    packet_duplication_probability = 1000;
  };
}

abbrev state : ProxyState ℕ numbers
state =
    on_config numbers (adds 9) injectors
      (update_upstream_hosts numbers (new numbers false) ("shop:80" ∷ [])) (from options)

run_command-started_example :
    (determine_proxy_and_ebpf_config machine (some "127.0.0.1:3180") none ≡ ok on_loopback)
    × (state.stealth ≡ false)
    × (state.shared_config.faults
        ≡ FaultConfig.dns (record { direction = Direction.egress; dns_rate = 50 }) ∷ [])
    × All (Known shop state.upstream_hosts) ("http://shop" ∷ [])
    × (state.plugins.injectors ≡ adds 1 ∷ adds 9 ∷ [])
unfolding run_command determine_proxy_and_ebpf_config initialize_proxy upstream_to_addr start_proxy
run_command-started_example =
    run_command-started thousandths machine numbers shop (adds 9) injectors options on_loopback
      state refl
