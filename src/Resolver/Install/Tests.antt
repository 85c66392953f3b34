-- ===== src/Resolver/Install/Tests.antt =====
-- Look-ups with and without a DNS fault, over requests and streams that are numbers.
use lueur.Prelude.{ℕ, ◌≡◌, refl, true, false, List, [], ◌∷◌, ok, done, ◌>>=◌, ltb}
use lueur.Prelude.Fixed.{thousandths}
use lueur.Types.Direction.{egress}
use lueur.Types.StreamSide.{server}
use lueur.Config.{FaultConfig, DnsSettings}
use lueur.Event.{fault_task, passthrough_task, ip_resolved, report}
use lueur.Plugin.{FaultInjector, Injectors, empty, load_injectors, set_injectors, prepare_client}
use lueur.Fault.Dns.{SmallRng}
use lueur.Resolver as Timing
use lueur.Resolver.{Lookup}
use lueur.Resolver.Install.{H, look_up, client_resolver, resolve, installing}
use lueur.Resolver.Install.Laws.{configured, timings, drawn, look_up-timings}

abbrev never : SmallRng ℕ
never = record { R = ℕ; gen_bool = λ p r. done (ltb r p, r) }

abbrev idle : FaultInjector (H thousandths never ℕ ℕ)
idle = record {
  inject = λ stream side. stream;
  apply_on_request_builder = λ b. ok b;
  apply_on_request = λ r. ok r;
  apply_on_response = λ r. ok r;
}

abbrev others : Injectors (H thousandths never ℕ ℕ) ℕ
others = record {
  of_dns = λ s. idle;
  of_latency = λ s. idle;
  of_packet_loss = λ s. idle;
  of_bandwidth = λ s. idle;
  of_jitter = λ s. idle;
  of_http_error = λ s. idle;
}

abbrev shop : Lookup ℕ ℕ
shop = record { now = 5; elapsed = 12; lookup_ip = λ host. ok (167772162 ∷ []) }

abbrev loss : FaultConfig ℕ
loss = FaultConfig.packet_loss (record { direction = egress; side = server })

abbrev half : DnsSettings
half = record { direction = egress; dns_rate = 50 }

abbrev faults : List (FaultConfig ℕ)
faults = loss ∷ FaultConfig.dns half ∷ []

timed :
    look_up thousandths never ℕ ℕ
      (configured thousandths never ℕ ℕ (λ s. 900) others idle (empty _) (loss ∷ []) 3)
      (fault_task 3)
      false
      "shop"
      shop
    ≡ done (ip_resolved 3 5 "shop" 12 ∷ [], ok ((167772162, 0) ∷ []))
unfolding look_up client_resolver resolve prepare_client set_injectors load_injectors installing
    Timing.resolve report
timed = refl

passed_through :
    look_up thousandths never ℕ ℕ (empty _) (passthrough_task 4) true "shop" shop
    ≡ done ([], ok ((167772162, 0) ∷ []))
unfolding look_up client_resolver resolve Timing.resolve report
passed_through = refl

look_up-timings_example :
    timings thousandths never ℕ ℕ
      (λ s. 900)
      others
      (look_up thousandths never ℕ ℕ
        (configured thousandths never ℕ ℕ (λ s. 900) others idle (empty _) faults 3)
        (fault_task 3)
        false
        "shop"
        shop)
    ≡ (drawn thousandths never ℕ ℕ (λ s. 900) others half >>= λ draw. done [])
look_up-timings_example =
    look_up-timings thousandths never ℕ ℕ (λ s. 900) others idle (empty _) faults 3 "shop" shop
