-- ===== src/Proxy/Listen/Tests.antt =====
-- A proxy that is sent two configurations, and stops between two connections.
use lueur.Prelude.{String, ℕ, ◌≡◌, refl, true, false, some, List, [], ◌∷◌, Result, ok, err}
use lueur.Types.Direction.{egress}
use lueur.Config.{FaultConfig, ProxyConfig}
use lueur.Errors.{ProxyError}
use lueur.Plugin.{Http, FaultInjector, Injectors}
use lueur.Proxy.Dispatch.{ProxyState, new}
use lueur.Proxy.Listen.{
  Happening, config_changed, shutdown, accepted, accept_failed, Socket, run_proxy, listen,
}
use lueur.Proxy.Listen.Laws.{with_config, run_proxy-Came}

abbrev numbers : Http
numbers = record { Builder = ℕ; Request = ℕ; Response = ℕ; Bidirectional = ℕ; E = Unit {0} }

abbrev idle : FaultInjector numbers
idle = record {
  inject = λ stream side. stream;
  apply_on_request_builder = λ b. ok b;
  apply_on_request = λ r. ok r;
  apply_on_response = λ r. ok r;
}

abbrev injectors : Injectors numbers ℕ
injectors = record {
  of_dns = λ s. idle;
  of_latency = λ s. idle;
  of_packet_loss = λ s. idle;
  of_bandwidth = λ s. idle;
  of_jitter = λ s. idle;
  of_http_error = λ s. idle;
}

abbrev config : ℕ → ProxyConfig ℕ
config rate = record {
  faults = FaultConfig.dns (record { direction = egress; dns_rate = rate }) ∷ [];
}

abbrev bound_to : Result (Unit {0}) String → Socket
bound_to bound = record {
  Addr = ℕ;
  parse = λ s. ok 3180;
  bind = λ addr. bound;
  show = λ addr. "0.0.0.0:3180";
}

abbrev happenings : List (Happening ℕ ℕ)
happenings =
    config_changed (config 10)
    ∷ accepted 1
    ∷ accept_failed "too many open files"
    ∷ accepted 2
    ∷ config_changed (config 20)
    ∷ shutdown
    ∷ accepted 3
    ∷ []

abbrev state : ProxyState ℕ numbers
state = new numbers false

in_use :
    (run_proxy numbers idle injectors
      (bound_to (err "address in use"))
      "0.0.0.0:3180"
      state
      happenings).returned
    ≡ some (err (ProxyError.io_error "Failed to bind to address 0.0.0.0:3180: address in use"))
unfolding run_proxy listen
in_use = refl

run_proxy-Came_example :
    let r = run_proxy numbers idle injectors (bound_to (ok tt)) "0.0.0.0:3180" state happenings in
    (r.ready ≡ true)
    × (r.listener.served ≡ 1 ∷ 2 ∷ [])
    × (r.listener.state ≡ with_config numbers idle injectors state (some (config 20)))
    × (r.returned ≡ some (ok tt))
run_proxy-Came_example =
    run_proxy-Came numbers idle injectors (bound_to (ok tt)) "0.0.0.0:3180" 3180 state happenings
      refl
