-- ===== src/Resolver/Install.antt =====
-- The resolver of the client that forwards a request: `execute` of lueur-cli/src/proxy/forward.rs up
-- to `prepare_client`, and the `FaultInjector` of lueur-cli/src/fault/dns.rs. A builder of `reqwest`
-- is the resolver that `dns_resolver` gave it last.
pub mod Laws
mod Tests
use lueur.Prelude.{
  String, ℕ, Bool, List, Result, ok, err, Run, done, ◌>>=◌, unwrap_ok, if◌then◌else◌,
}
use lueur.Prelude.Float.{Float}
use lueur.Errors.{ProxyError}
use lueur.Event.{ProxyTaskEvent, TaskProgressEvent}
use lueur.Config.{DnsSettings}
use lueur.Plugin.{Http, FaultInjector, CompositePlugin, Injectors, prepare_client}
use lueur.Proxy.Forward.{http}
use lueur.Fault.Dns as Dns
use lueur.Fault.Dns.{SmallRng, FaultyResolverInjector, from, apply_on_request_builder}
use lueur.Resolver as Timing
use lueur.Resolver.{TimingResolver, new, no_timing, SocketAddr, socket_addrs, Lookup}

module _ (fl : Float) (rand : SmallRng fl.F) where
  open fl use {F}

  -- The two implementations of `Resolve`.
  pub data Resolver : Type 0 where
    measuring : TimingResolver fl → Resolver
    faulty : FaultyResolverInjector fl rand → Resolver

  -- `resolve` of either: what is reported, and the answer.
  pub resolve :
      {Ip : Type 0}
      → Resolver
      → (host : String) → Lookup F Ip
      → Run (List (TaskProgressEvent F) × Result (List (SocketAddr Ip)) String)
  resolve (measuring self) host l =
      let (after, events, answer) = Timing.resolve fl self host l in done (events, answer)
  resolve (faulty self) host l = do
    (after, events, answer) ← Dns.resolve fl rand self l.now (socket_addrs (l.lookup_ip host))
    done (events, answer)

  module _ (Request Stream : Type 0) where
    abbrev pub H : Http
    H = http Resolver Request Stream

    -- `rng` is what `from_entropy` gives. Streams, requests and responses stay as they are.
    pub dns_injector : (rng : rand.R) → ProxyTaskEvent → DnsSettings → FaultInjector H
    dns_injector rng event settings = record {
      inject = λ stream side. stream;
      apply_on_request_builder = λ builder.
          ok (faulty (apply_on_request_builder fl rand (from fl rand settings rng) event).1);
      apply_on_request = λ request. ok request;
      apply_on_response = λ resp. ok resp;
    }

    -- The other faults, and the metrics, leave the builder as it is.
    pub unchanged : FaultInjector H → FaultInjector H
    unchanged injector = record injector { apply_on_request_builder = λ builder. ok builder }

    -- `load_injectors`, for a task: `entropy` seeds the generator of a DNS fault, and `others` are
    -- the injectors of the other faults in what they do to streams, requests and responses.
    pub installing :
        (entropy : DnsSettings → rand.R) → ProxyTaskEvent → Injectors H F → Injectors H F
    unfolding dns_injector unchanged
    installing entropy event others = record {
      of_dns = λ settings. dns_injector (entropy settings) event settings;
      of_latency = λ settings. unchanged (others.of_latency settings);
      of_packet_loss = λ settings. unchanged (others.of_packet_loss settings);
      of_bandwidth = λ settings. unchanged (others.of_bandwidth settings);
      of_jitter = λ settings. unchanged (others.of_jitter settings);
      of_http_error = λ settings. unchanged (others.of_http_error settings);
    }

    -- The resolver of the client.
    pub client_resolver : CompositePlugin H → ProxyTaskEvent → (passthrough : Bool) → Run Resolver
    unfolding no_timing new
    client_resolver plugins event passthrough =
        let resolver = measuring (new fl (no_timing fl) event) in
        if passthrough then done resolver else unwrap_ok (done (prepare_client H plugins resolver))

    -- What the look-up of a host reports, and what it answers.
    pub look_up :
        {Ip : Type 0}
        → CompositePlugin H
        → ProxyTaskEvent
        → (passthrough : Bool) (host : String) → Lookup F Ip
        → Run (List (TaskProgressEvent F) × Result (List (SocketAddr Ip)) String)
    unfolding client_resolver resolve
    look_up plugins event passthrough host l = do
      resolver ← client_resolver plugins event passthrough
      resolve resolver host l
