-- ===== src/Resolver.antt =====
-- lueur-cli/src/resolver.rs: the resolver that measures look-ups. The look-up of `hickory-resolver`
-- is a parameter. Resolver.Install has the resolver that the client of a request is given.
pub mod Install
use lueur.Prelude.{
  String, ℕ, true, false, List, [], ◌∷◌, map, Result, ok, err, Run, done, ◌>>=◌, unwrap_ok,
}
use lueur.Prelude.Float.{Float}
use lueur.Event.{ProxyTaskEvent, TaskProgressEvent, report, on_resolved}
use lueur.Scenario.Lifecycle.{DnsTiming}

-- An address and a port.
abbrev pub SocketAddr : Type 0 → Type 0
SocketAddr Ip = Ip × ℕ

-- `lookup.into_iter()`, each address with the port 0; `?` on the look-up.
pub socket_addrs : {Ip : Type 0} → Result (List Ip) String → Result (List (SocketAddr Ip)) String
socket_addrs (ok ips) = ok (map (λ addr. (addr, 0)) ips)
socket_addrs (err e) = err e

-- One look-up: when it is made, what it takes, and what the resolver returns for a name.
pub record Lookup (F Ip : Type 0) : Type 0 where
  pub now : ℕ
  pub elapsed : F
  pub lookup_ip : String → Result (List Ip) String

module _ (fl : Float) where
  open fl use {F, lit}

  -- `DnsTiming::new`
  no_timing : DnsTiming F
  no_timing = record { host = ""; duration = lit 0 0; resolved = false }

  pub record TimingResolver : Type 0 where
    pub timing : DnsTiming F
    pub event : ProxyTaskEvent

  pub new : (timing : DnsTiming F) → ProxyTaskEvent → TimingResolver
  new timing event = record { timing = timing; event = event }

  -- The resolver with the timing that it shares, what is reported, and the answer.
  pub resolve :
      {Ip : Type 0}
      → TimingResolver
      → (host : String) → Lookup F Ip
      → TimingResolver × List (TaskProgressEvent F) × Result (List (SocketAddr Ip)) String
  unfolding socket_addrs
  resolve self host l = elim (l.lookup_ip host) [
    | ok lookup ↦ (
      record self { timing = record { host = host; duration = l.elapsed; resolved = true } },
      report self.event l.now (on_resolved host l.elapsed),
      socket_addrs (ok lookup),
    )
    | err e ↦ (self, [], err e)
  ]

-- `local_ip().unwrap()`, printed.
map_localhost_to_nic :
    {Ip : Type 0} (local_ip : Result Ip String) (to_string : Ip → String) → Run String
map_localhost_to_nic local_ip to_string = do ip ← unwrap_ok (done local_ip); done (to_string ip)
