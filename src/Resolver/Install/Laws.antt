-- ===== src/Resolver/Install/Laws.antt =====
-- Which look-ups are measured.
use lueur.Prelude.{
  String, ◌≡◌, refl, Bool, true, false, Option, none, some, List, [], ◌∷◌, ◌++◌, ok, err, Run, done,
  ◌>>=◌, arith,
}
use lueur.Prelude.Float.{Float}
use lueur.Event.{TaskId, ProxyTaskEvent, fault_task, report, TaskProgressEvent}
use lueur.Config.{FaultConfig, DnsSettings}
use lueur.Plugin.{
  FaultInjector, CompositePlugin, Injectors, in_turn, set_injectors, load_injectors, prepare_client,
}
use lueur.Fault.Dns as Dns
use lueur.Fault.Dns.{SmallRng, from, apply_on_request_builder}
use lueur.Scenario.Lifecycle.{DnsTiming}
use lueur.Scenario.Lifecycle.Views.{resolved}
use lueur.Resolver as Timing
use lueur.Resolver.{new, no_timing, Lookup}
use lueur.Resolver.Install.{
  Resolver, measuring, faulty, H, unchanged, installing, client_resolver, look_up, resolve,
  dns_injector,
}

module _ {F : Type 0} where
  -- The last DNS fault of a list, or else `found`.
  abbrev pub last_dns : Option DnsSettings → List (FaultConfig F) → Option DnsSettings
  last_dns found [] = found
  last_dns found (FaultConfig.dns settings ∷ faults) = last_dns (some settings) faults
  last_dns found (_ ∷ faults) = last_dns found faults

  -- What there is to measure in a look-up that succeeds.
  abbrev pub measured : {Ip : Type 0} → String → Lookup F Ip → List (DnsTiming F)
  measured host l = elim (l.lookup_ip host) [
    | ok ips ↦ record { host = host; duration = l.elapsed; resolved = true } ∷ []
    | err e ↦ []
  ]

module _ (fl : Float) (rand : SmallRng fl.F) (Request Stream : Type 0)
    (entropy : DnsSettings → rand.R) (event : ProxyTaskEvent)
    (others : Injectors (H fl rand Request Stream) fl.F) where
  open fl use {F}

  abbrev chosen : Option DnsSettings → Resolver fl rand
  chosen none = measuring (new fl (no_timing fl) event)
  chosen (some settings) =
      faulty (apply_on_request_builder fl rand (from fl rand settings (entropy settings)) event).1

  installed :
      (metrics : FaultInjector (H fl rand Request Stream)) (found : Option DnsSettings)
      (faults : List (FaultConfig F))
      → in_turn
          (H fl rand Request Stream)
          (λ i. i.apply_on_request_builder)
          (load_injectors _
              (installing fl rand Request Stream entropy event others)
              (record { faults = faults })
            ++ unchanged fl rand Request Stream metrics ∷ [])
          (chosen found)
        ≡ ok (chosen (last_dns found faults))
  unfolding in_turn load_injectors installing unchanged dns_injector
  installed metrics found [] = refl
  installed metrics found (FaultConfig.dns settings ∷ faults) =
      installed metrics (some settings) faults
  installed metrics found (FaultConfig.latency settings ∷ faults) = installed metrics found faults
  installed metrics found (FaultConfig.packet_loss settings ∷ faults) =
      installed metrics found faults
  installed metrics found (FaultConfig.bandwidth settings ∷ faults) = installed metrics found faults
  installed metrics found (FaultConfig.jitter settings ∷ faults) = installed metrics found faults
  installed metrics found (FaultConfig.packet_duplication settings ∷ faults) =
      installed metrics found faults
  installed metrics found (FaultConfig.http_error settings ∷ faults) =
      installed metrics found faults

module _ (fl : Float) (rand : SmallRng fl.F) (Request Stream : Type 0)
    (entropy : DnsSettings → rand.R) (others : Injectors (H fl rand Request Stream) fl.F) where
  open fl use {F}

  -- The plugin of a task that a new configuration has reached.
  abbrev pub configured :
      (metrics : FaultInjector (H fl rand Request Stream))
      → CompositePlugin (H fl rand Request Stream)
      → List (FaultConfig F)
      → TaskId
      → CompositePlugin (H fl rand Request Stream)
  configured metrics plugin faults id =
      set_injectors _ (unchanged fl rand Request Stream metrics) plugin (
        load_injectors _ (installing fl rand Request Stream entropy (fault_task id) others)
          (record { faults = faults }))

  -- What the gathering of the events adds to the timings of a call.
  abbrev pub timings :
      {A : Type 0} → Run (List (TaskProgressEvent F) × A) → Run (List (DnsTiming F))
  timings looked_up = do r ← looked_up; done (resolved r.0)

  abbrev pub drawn : DnsSettings → Run (Bool × rand.R)
  drawn settings =
      rand.gen_bool (fl.div (fl.of_int settings.dns_rate) (fl.lit 100 0)) (entropy settings)

  resolved_by :
      {Ip : Type 0} (id : TaskId) (host : String) (l : Lookup F Ip) (found : Option DnsSettings)
      → timings (
          resolve fl rand
            (chosen fl rand Request Stream entropy (fault_task id) others found)
            host
            l)
        ≡ (elim found [
          | none ↦ done (measured host l)
          | some settings ↦ drawn settings >>= λ draw. done []
        ])
  unfolding resolve Timing.resolve Dns.resolve from apply_on_request_builder report new
  resolved_by id host l none = ground arith
  resolved_by id host l (some settings) = ground arith

  -- A look-up for a request that meets faults is measured only if no DNS fault is declared: then,
  -- if it succeeds, its host and its time are the timing. With a DNS fault no timing is reported,
  -- whether the fault strikes or not; and the look-up panics exactly if the draw for the last
  -- DNS fault of the list does.
  pub look_up-timings :
      {Ip : Type 0} (metrics : FaultInjector (H fl rand Request Stream))
      (plugin : CompositePlugin (H fl rand Request Stream)) (faults : List (FaultConfig F))
      (id : TaskId) (host : String) (l : Lookup F Ip)
      → timings (
          look_up fl rand Request Stream
            (configured metrics plugin faults id)
            (fault_task id)
            false
            host
            l)
        ≡ (elim (last_dns none faults) [
          | none ↦ done (measured host l)
          | some settings ↦ drawn settings >>= λ draw. done []
        ])
  unfolding look_up client_resolver prepare_client set_injectors
  look_up-timings metrics plugin faults id host l =
      rw (installed fl rand Request Stream entropy (fault_task id) others metrics none faults)
        (resolved_by id host l (last_dns none faults))
