-- ===== src/Fault/Dns.antt =====
-- `FaultyResolverInjector` of lueur-cli/src/fault/dns.rs. The generator and the look-up are
-- parameters.
pub mod Laws
mod Tests
use lueur.Prelude.{
  String, ℕ, Bool, true, Option, none, some, List, [], ◌∷◌, Result, ok, err, Run, done, ◌>>=◌,
  if◌then◌else◌,
}
use lueur.Prelude.Float.{Float}
use lueur.Types.Direction.{egress}
use lueur.Types.StreamSide.{StreamSide, client}
use lueur.Config.{DnsSettings}
use lueur.Event.{ProxyTaskEvent, TaskProgressEvent, report, on_with_fault, dns}

-- `SmallRng`; `gen_bool` panics if it is given no probability.
pub record SmallRng (F : Type 0) : Type 1 where
  pub R : Type 0
  pub gen_bool : F → R → Run (Bool × R)

module _ (fl : Float) (rand : SmallRng fl.F) where
  open fl use {F, lit, of_int, div}
  open rand use {R, gen_bool}

  pub record FaultyResolverInjector : Type 0 where
    pub settings : DnsSettings
    pub event : Option ProxyTaskEvent
    pub side : StreamSide
    pub rng : R

  -- `rng` is what `from_entropy` gives.
  unfoldable pub from : DnsSettings → (rng : R) → FaultyResolverInjector
  from settings rng = record { settings = settings; event = none; side = client; rng = rng }

  should_apply_fault_resolver : FaultyResolverInjector → Run (Bool × FaultyResolverInjector)
  should_apply_fault_resolver self = do
    drawn ← gen_bool (div (of_int self.settings.dns_rate) (lit 100 0)) self.rng
    done (drawn.0, record self { rng = drawn.1 })

  with_event : FaultyResolverInjector → ProxyTaskEvent → FaultyResolverInjector
  with_event self event = record self { event = some event }

  -- The injector afterwards, and the resolver that the builder is given, which is a clone of it.
  unfoldable pub apply_on_request_builder :
      FaultyResolverInjector → ProxyTaskEvent → FaultyResolverInjector × FaultyResolverInjector
  unfolding with_event
  apply_on_request_builder self event = let cloned = self in (self, with_event cloned event)

  triggered : FaultyResolverInjector → (now : ℕ) → Bool → List (TaskProgressEvent F)
  triggered self now fault = elim (self.event) [
    | none ↦ []
    | some event ↦ report event now (on_with_fault (dns egress self.side (some fault)))
  ]

  -- The resolver afterwards, what is reported, and the answer. The draw is made by a clone.
  unfoldable pub resolve :
      {Addrs : Type 0}
      → FaultyResolverInjector
      → (now : ℕ) (lookup_ip : Result Addrs String)
      → Run (FaultyResolverInjector × List (TaskProgressEvent F) × Result Addrs String)
  unfolding should_apply_fault_resolver triggered
  resolve self now lookup_ip = do
    drawn ← should_apply_fault_resolver self
    let (apply_fault, self_clone) = drawn
    done (
      self,
      triggered self_clone now apply_fault,
      (if apply_fault then err "Simulated DNS resolution failure" else lookup_ip),
    )
