-- ===== src/Lib.antt =====
-- A model of lueur, a proxy that injects network faults, and what is proved of it.
--
-- The program (paths from the repository's root):
--   * lueur-cli/src/scenario.rs reads scenarios. Each item is repeated by its strategy, gives the
--     proxy its upstreams and faults, makes a request through the proxy and holds the answer
--     against the expectation; a task gathers what the proxy reports meanwhile.
--   * lueur-cli/src/event.rs has the messages that the proxy's tasks report, and numbers the tasks.
--   * lueur-cli/src/types.rs, config.rs and errors.rs have the shared types.
--   * lueur-cli/src/plugin/mod.rs turns a configuration into a list of injectors and applies them;
--     lueur-cli/src/fault/*.rs are the injectors, which wrap the streams of a connection.
--   * lueur-cli/src/proxy finds out where a request goes and whether its faults are injected, and
--     forwards it (forward.rs) or tunnels it (tunnel.rs); lueur-cli/src/termui.rs shows its tasks.
--   * lueur-cli/src/cli.rs has the options, config.rs what they configure; lueur-cli/src/main.rs
--     starts the proxy and runs the items of a scenario. lueur-cli/src/resolver.rs measures look-ups;
--     lueur-cli/src/demo.rs is a server to try the proxy on.
--   * lueur-cli/src/reporting.rs evaluates the items against service-level objectives.
--   * lueur-cli/src/nic.rs chooses the interfaces for the proxy and the eBPF programs;
--     lueur-ebpf-programs/src/main.rs has those programs, which redirect connections to the proxy;
--     lueur-cli/src/ebpf.rs fills their maps.
--
-- The files, each beside a folder with its laws and tests:
--   * Prelude: shared names; `Run` for calls that may panic; `Float`, the operations of `f64` as an
--     interface without laws, of which `thousandths` is an instance for concrete runs.
--   * Types, Config, Errors, Event: the types, with `from_str`, `Display`, `build`, `into_response`,
--     `TaskManager` (Event.Ids) and the two kinds of task.
--   * Scenario.Items: `count_scenario_items`, `build_item_list`. Scenario.Events: `ScenarioEvent`.
--     Scenario.Lifecycle: `handle_scenario_events` over the list of what both channels deliver.
--     Scenario.Execute: `execute_item`. Scenario.Load: `load_scenarios`. Scenario.Request:
--     `execute_request` (Scenario.Request.Timing: `TimingStream`).
--   * Main: the loop over the items, `initialize_proxy`. Main.Command: the commands `run` and
--     `scenario run` from there to the report.
--   * Upstream: `upstream_to_addr`, `parse_host_and_port`, `get_host`, over the `url` crate.
--   * Resolver: `TimingResolver`; Resolver.Install: which resolver a client is given.
--   * Proxy.Target, .Dispatch, .Forward, .Tunnel: `determine_upstream`; `ProxyState` and the service
--     of `run_proxy`, and where requests go (Proxy.Dispatch.Requests); `Forward::execute` as its
--     reports and its ending; `handle_connect`. Proxy.Listen: the loops of `run_proxy`.
--   * Termui: `handle_displayable_events` as a function on the map of tasks (Termui.Rows and
--     Termui.Text have its texts).
--   * Cli: the options of `run`, their defaults and validators. Config.FromCli: the settings that
--     they give.
--   * Reporting.Items, .Slo, .Output, .Render, .Save: the records, the evaluations,
--     `build_report_output`, `pretty_report` and `Report::save`.
--   * Plugin: `CompositePlugin` and `load_injectors`. Plugin.Metrics: the wrapper that reports the
--     first byte. Plugin.Rpc: the remote plugins.
--   * Fault.Latency, .Jitter, .PacketLoss, .Bandwidth: a wrapper is a record, and a poll a function
--     from its state, the time and the numbers drawn to the next state, the outcome and the events.
--     Fault.Inject: the halves that `inject` wraps. Fault.Body: the loop that reads a body through
--     a wrapper. Their children of the same names in each fault: `inject`, `apply_on_response`,
--     `apply_on_request`. Fault.Dns, .HttpError: what they do to a look-up and to a response.
--   * Demo: the handlers of the demonstration server.
--   * Nic: `determine_proxy_and_ebpf_config`. Ebpf: `try_ingress`, `try_egress` and the classifiers.
--     Ebpf.Install: the maps they read. Ebpf.Attach: `install_and_run`.
--
-- Parameters: the kernel's maps and checksum helper, the programs of an image, the operating
-- system's interfaces, the parsers of URLs and socket addresses, `to_lowercase`, the wrapped
-- streams, tokio's sleep and split, cursors and readers of chunks, governor's rate limiter, the
-- HTTP client and types, sockets, the gRPC client, resolvers and generators of random numbers, the
-- walk of a directory, files and YAML documents, serializers, the template and table printers, what
-- `clap` finds for a field, and the colours and number formats of the terminal. Laws of theirs that
-- proofs use are fields of their interface or hypotheses, and the tests have instances that satisfy
-- them.
--
-- Numbers are unbounded except `usize` (64 bits), `u32` in the limiter, and the task counter, whose
-- wrap-around is written out. The loops go over lists or counts, except those of `get_delay`, which
-- draw a sample again while it is negative. They have fuel, which is enough if it exceeds the place
-- of the first sample that is not negative; a poll that exceeds its fuel has not returned.
--
-- Not modelled: the sockets under the proxy, logging.rs, the top-level commands of cli.rs, and
-- the template of the HTML report.
pub mod Cli
pub mod Config
pub mod Demo
pub mod Ebpf
pub mod Errors
pub mod Event
pub mod Fault
pub mod Main
pub mod Nic
pub mod Plugin
pub mod Prelude
pub mod Proxy
pub mod Reporting
pub mod Resolver
pub mod Scenario
pub mod Termui
pub mod Types
pub mod Upstream
