-- ===== src/Plugin.antt =====
-- lueur-cli/src/plugin/mod.rs: the composite plugin. A fault injector is an interface; the
-- injectors of the program, and the HTTP types, are its parameters. `E` is `ProxyError`.
pub mod Laws
pub mod Metrics
pub mod Rpc
pub mod Duplication
mod Tests
use lueur.Prelude.{ℕ, List, [], ◌∷◌, ◌++◌, Result, ok, err}
use lueur.Types.StreamSide.{StreamSide, client, server}
use lueur.Config.{
  FaultConfig, ProxyConfig, LatencySettings, PacketLossSettings, BandwidthSettings, JitterSettings,
  DnsSettings, HttpResponseSettings,
}

-- What the injectors work on.
pub record Http : Type 1 where
  pub Builder : Type 0
  pub Request : Type 0
  pub Response : Type 0
  pub Bidirectional : Type 0
  pub E : Type 0

module _ (h : Http) where
  open h use {Builder, Request, Response, Bidirectional, E}

  pub record FaultInjector : Type 0 where
    pub inject : Bidirectional → StreamSide → Bidirectional
    pub apply_on_request_builder : Builder → Result Builder E
    pub apply_on_request : Request → Result Request E
    pub apply_on_response : Response → Result Response E

  -- A loop that hands a value from one injector to the next, and stops at the first error.
  unfoldable pub in_turn :
      {A : Type 0} → (FaultInjector → A → Result A E) → List FaultInjector → A → Result A E
  in_turn apply [] a = ok a
  in_turn apply (injector ∷ injectors) a = elim (apply injector a) [
    | ok b ↦ in_turn apply injectors b
    | err e ↦ err e
  ]

  pub record CompositePlugin : Type 0 where
    pub injectors : List FaultInjector

  unfoldable pub empty : CompositePlugin
  empty = record { injectors = [] }

  -- `metrics` is `MetricsInjector::new()`.
  unfoldable pub set_injectors :
      (metrics : FaultInjector) → CompositePlugin → List FaultInjector → CompositePlugin
  set_injectors metrics plugin injectors = record { injectors = injectors ++ metrics ∷ [] }

  unfoldable pub prepare_client : CompositePlugin → Builder → Result Builder E
  unfolding in_turn
  prepare_client plugin builder = in_turn (λ i. i.apply_on_request_builder) plugin.injectors builder

  unfoldable pub process_request : CompositePlugin → Request → Result Request E
  unfolding in_turn
  process_request plugin req = in_turn (λ i. i.apply_on_request) plugin.injectors req

  unfoldable pub process_response : CompositePlugin → Response → Result Response E
  unfolding in_turn
  process_response plugin resp = in_turn (λ i. i.apply_on_response) plugin.injectors resp

  -- The loop of `inject_tunnel_faults`.
  pub inject_all :
      List FaultInjector → Bidirectional → Bidirectional → Bidirectional × Bidirectional
  inject_all [] client_stream server_stream = (client_stream, server_stream)
  inject_all (injector ∷ injectors) client_stream server_stream =
      inject_all injectors (injector.inject client_stream client)
        (injector.inject server_stream server)

  unfoldable pub inject_tunnel_faults :
      CompositePlugin → Bidirectional → Bidirectional → Result (Bidirectional × Bidirectional) E
  unfolding inject_all
  inject_tunnel_faults plugin client_stream server_stream =
      ok (inject_all plugin.injectors client_stream server_stream)

  -- The `From` implementations of the injectors.
  pub record Injectors (F : Type 0) : Type 0 where
    pub of_dns : DnsSettings → FaultInjector
    pub of_latency : LatencySettings F → FaultInjector
    pub of_packet_loss : PacketLossSettings → FaultInjector
    pub of_bandwidth : BandwidthSettings → FaultInjector
    pub of_jitter : JitterSettings F → FaultInjector
    pub of_http_error : HttpResponseSettings F → FaultInjector

  module _ {F : Type 0} (i : Injectors F) where
    -- One arm of the match, before what the rest pushes; packet duplication pushes nothing.
    push : FaultConfig F → List FaultInjector → List FaultInjector
    push (FaultConfig.dns settings) rest = i.of_dns settings ∷ rest
    push (FaultConfig.latency settings) rest = i.of_latency settings ∷ rest
    push (FaultConfig.packet_loss settings) rest = i.of_packet_loss settings ∷ rest
    push (FaultConfig.bandwidth settings) rest = i.of_bandwidth settings ∷ rest
    push (FaultConfig.jitter settings) rest = i.of_jitter settings ∷ rest
    push (FaultConfig.packet_duplication settings) rest = rest
    push (FaultConfig.http_error settings) rest = i.of_http_error settings ∷ rest

    push_all : List (FaultConfig F) → List FaultInjector
    unfolding push
    push_all [] = []
    push_all (fault ∷ faults) = push fault (push_all faults)

    unfoldable pub load_injectors : ProxyConfig F → List FaultInjector
    unfolding push_all
    load_injectors config = push_all config.faults
