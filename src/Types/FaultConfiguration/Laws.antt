-- ===== src/Types/FaultConfiguration/Laws.antt =====
-- Which descriptions of a fault can be built, and what kind of fault they give.
use lueur.Prelude.{
  err, ◌≢◌, String, ◌≡◌, ◌↔◌, refl, Bool, true, false, ◌&&◌, Option, none, some, done, panic,
  Result, ok, arith,
}
use lueur.Prelude.Float.{Float}
use lueur.Types.Direction
use lueur.Types.LatencyDistribution
use lueur.Types.FaultConfiguration.{
  FaultConfiguration, latency, packet_loss, bandwidth, jitter, dns, get_or, build_latency, build,
  fault_type,
}
use lueur.Config.{FaultConfig}
use lueur.Config
use lueur.Errors.{ScenarioError}

module _ (fl : Float) (to_lowercase : String → String) where
  open fl use {F}

  abbrev known : {A : Type 0} → Option A → Bool
  known none = false
  known (some _) = true

  -- The word of a description is a direction; that of a latency may be missing.
  abbrev pub direction_known : FaultConfiguration F → Bool
  direction_known (latency l) =
      known (Direction.from_str to_lowercase (get_or l.direction "egress"))
  direction_known (packet_loss _ _ word _) = known (Direction.from_str to_lowercase word)
  direction_known (bandwidth _ _ word _) = known (Direction.from_str to_lowercase word)
  direction_known (jitter _ _ word) = known (Direction.from_str to_lowercase word)
  direction_known (dns _ word) = known (Direction.from_str to_lowercase word)

  -- The distribution of a latency is one, or is missing.
  abbrev pub distribution_known : FaultConfiguration F → Bool
  distribution_known (latency l) =
      known (LatencyDistribution.from_str to_lowercase (get_or l.distribution "normal"))
  distribution_known _ = true

  -- Building panics exactly when the direction or the distribution is an unknown word.
  pub build-panic_iff :
      (c : FaultConfiguration F)
      → (build fl to_lowercase c ≡ panic) ↔ ((direction_known c && distribution_known c) ≡ false)
  unfolding build build_latency
  build-panic_iff (latency l) = ground arith
  build-panic_iff (packet_loss _ _ word _) = ground arith
  build-panic_iff (bandwidth _ _ word _) = ground arith
  build-panic_iff (jitter _ _ word) = ground arith
  build-panic_iff (dns _ word) = ground arith

  -- The words of both displays differ for packet loss alone.
  abbrev pub kind : FaultConfiguration F → String
  kind (packet_loss _ _ _ _) = "packet-loss"
  kind c = fault_type c

  displayed_as :
      (c : FaultConfiguration F) (cfg : FaultConfig F)
      → build fl to_lowercase c ≡ done (ok cfg)
      → Config.display cfg ≡ kind c
  unfolding build build_latency fault_type Config.display
  displayed_as (latency l) cfg e = ground arith
  displayed_as (packet_loss _ _ word _) cfg e = ground arith
  displayed_as (bandwidth _ _ word _) cfg e = ground arith
  displayed_as (jitter _ _ word) cfg e = ground arith
  displayed_as (dns _ word) cfg e = ground arith

  never_err :
      (c : FaultConfiguration F) (x : ScenarioError) → build fl to_lowercase c ≢ done (err x)
  unfolding build build_latency
  never_err (latency l) x e = ground arith
  never_err (packet_loss _ _ word _) x e = ground arith
  never_err (bandwidth _ _ word _) x e = ground arith
  never_err (jitter _ _ word) x e = ground arith
  never_err (dns _ word) x e = ground arith

  -- What is built is never an error, and is a fault of the kind described: it is displayed as the
  -- description's `fault_type`, save that a packet loss is displayed as "packet-loss" and has the
  -- type "packetloss".
  pub build-kind :
      (c : FaultConfiguration F) (r : Result (FaultConfig F) ScenarioError)
      → build fl to_lowercase c ≡ done r
      → (cfg : FaultConfig F) × (r ≡ ok cfg) × (Config.display cfg ≡ kind c)
  build-kind c (ok cfg) e = (cfg, refl, displayed_as c cfg e)
  build-kind c (err x) e = absurd (never_err c x e)
