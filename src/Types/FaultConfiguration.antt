-- ===== src/Types/FaultConfiguration.antt =====
-- `FaultConfiguration` of lueur-cli/src/types.rs: a fault as a scenario file describes it, and the
-- settings that it builds. An `unwrap` of an unknown word panics.
pub mod Laws
pub mod Display
use lueur.Prelude.{String, ℕ, Bool, true, Option, none, some, Run, done, ◌>>=◌, unwrap, Result, ok}
use lueur.Prelude.Float.{Float}
use lueur.Types.Direction
use lueur.Types.Direction.{Direction}
use lueur.Types.StreamSide.{StreamSide, side_or_default}
use lueur.Types.LatencyDistribution
use lueur.Types.BandwidthUnit.{BandwidthUnit}
use lueur.Config.{FaultConfig}
use lueur.Errors.{ScenarioError}

pub record LatencyFields (F : Type 0) : Type 0 where
  pub distribution : Option String
  pub global : Option Bool
  pub side : Option StreamSide
  pub mean : Option F
  pub stddev : Option F
  pub min : Option F
  pub max : Option F
  pub shape : Option F
  pub scale : Option F
  pub direction : Option String

pub data FaultConfiguration (F : Type 0) : Type 0 where
  latency : LatencyFields F → FaultConfiguration F
  packet_loss :
      (packet_loss_type : String) (packet_loss_rate : F) (direction : String)
      (side : Option StreamSide)
      → FaultConfiguration F
  bandwidth :
      (rate : ℕ) (unit : BandwidthUnit) (direction : String) (side : Option StreamSide)
      → FaultConfiguration F
  jitter : (jitter_amplitude jitter_frequency : F) (direction : String) → FaultConfiguration F
  dns : (dns_rate : ℕ) (direction : String) → FaultConfiguration F

abbrev pub get_or {ℓ} : {A : Type ℓ} → Option A → A → A
get_or none d = d
get_or (some a) d = a

module _ (fl : Float) (to_lowercase : String → String) where
  open fl use {F, lit}

  abbrev direction_of : String → Run Direction
  direction_of word = unwrap (Direction.from_str to_lowercase word)

  pub build_latency : LatencyFields F → Run (Result (FaultConfig F) ScenarioError)
  build_latency l = do
    distribution ←
        unwrap (LatencyDistribution.from_str to_lowercase (get_or l.distribution "normal"))
    direction ← direction_of (get_or l.direction "egress")
    done (
        ok (
          FaultConfig.latency (record {
            distribution = distribution;
            direction = direction;
            global = get_or l.global true;
            side = side_or_default l.side;
            latency_mean = get_or l.mean (lit 100 0);
            latency_stddev = get_or l.stddev (lit 20 0);
            latency_shape = get_or l.shape (lit 20 0);
            latency_scale = get_or l.scale (lit 20 0);
            latency_min = get_or l.min (lit 20 0);
            latency_max = get_or l.max (lit 20 0);
          })))

  unfoldable pub build : FaultConfiguration F → Run (Result (FaultConfig F) ScenarioError)
  unfolding build_latency
  build (bandwidth rate unit word side) = do
    direction ← direction_of word
    done (
        ok (
          FaultConfig.bandwidth (record {
            direction = direction;
            side = side_or_default side;
            bandwidth_rate = rate;
            bandwidth_unit = unit;
          })))
  build (latency l) = build_latency l
  build (packet_loss packet_loss_type packet_loss_rate word side) = do
    direction ← direction_of word
    done (
        ok
          (FaultConfig.packet_loss (record { direction = direction; side = side_or_default side })))
  build (jitter amplitude frequency word) = do
    direction ← direction_of word
    done (
        ok (
          FaultConfig.jitter (record {
            direction = direction;
            jitter_amplitude = amplitude;
            jitter_frequency = frequency;
          })))
  build (dns rate word) = do
    direction ← direction_of word
    done (ok (FaultConfig.dns (record { direction = direction; dns_rate = rate })))

unfoldable pub fault_type : {F : Type 0} → FaultConfiguration F → String
fault_type (latency _) = "latency"
fault_type (packet_loss _ _ _ _) = "packetloss"
fault_type (bandwidth _ _ _ _) = "bandwidth"
fault_type (jitter _ _ _) = "jitter"
fault_type (dns _ _) = "dns"
