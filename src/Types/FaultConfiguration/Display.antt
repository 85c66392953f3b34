-- ===== src/Types/FaultConfiguration/Display.antt =====
-- `Display` of `FaultConfiguration` in lueur-cli/src/types.rs.
use Prim.Native.String.{◌++◌}
use lueur.Prelude.{String, ℕ, Bool, true, false, Option, none, some, List, [], ◌∷◌}
use lueur.Prelude.Float.{Float}
use lueur.Types.StreamSide
use lueur.Types.StreamSide.{side_or_default}
use lueur.Types.BandwidthUnit
use lueur.Types.FaultConfiguration.{
  LatencyFields, FaultConfiguration, latency, packet_loss, bandwidth, jitter, dns, get_or,
}

-- What `format!` makes of a number: `{}` and `{:.n}`.
pub record Numbers (fl : Float) : Type 0 where
  pub show : ℕ → String
  pub fixed : (places : ℕ) → fl.F → String

join : (separator : String) → List String → String
join separator [] = ""
join separator (s ∷ []) = s
join separator (s ∷ s' ∷ ss) = s ++ separator ++ join separator (s' ∷ ss)

bool_text : Bool → String
bool_text true = "true"
bool_text false = "false"

module _ (fl : Float) (n : Numbers fl) where
  open fl use {F, lit, mul}

  -- `push` under an `if let`, before the details that are pushed later.
  detail : {A : Type 0} → Option A → (A → String) → List String → List String
  detail none text later = later
  detail (some a) text later = text a ∷ later

  latency_details : LatencyFields F → List String
  unfolding bool_text detail
  latency_details l =
      ("Global: " ++ bool_text (get_or l.global true))
      ∷ ("Side: " ++ StreamSide.display (side_or_default l.side))
      ∷ detail l.distribution (λ d. "Distribution: " ++ d)
          (detail l.mean (λ m. "Mean: " ++ n.fixed 2 m ++ " ms")
            (detail l.stddev (λ s. "Stddev: " ++ n.fixed 2 s ++ " ms")
              (detail l.min (λ m. "Min: " ++ n.fixed 2 m ++ " ms")
                (detail l.max (λ m. "Max: " ++ n.fixed 2 m ++ " ms")
                  (detail l.shape (λ s. "Shape: " ++ n.fixed 2 s)
                    (detail l.scale (λ s. "Scale: " ++ n.fixed 2 s)
                      (detail l.direction (λ d. "Direction: " ++ d) [])))))))

  -- The details of a latency are never empty.
  pub display : FaultConfiguration F → String
  unfolding latency_details join
  display (latency l) = "Latency Fault [" ++ join ", " (latency_details l) ++ "]"
  display (packet_loss packet_loss_type packet_loss_rate direction side) =
      "Packet Loss Fault - Type: "
      ++ packet_loss_type
      ++ ", Rate: "
      ++ n.fixed 2 (mul packet_loss_rate (lit 100 0))
      ++ "%, Direction: "
      ++ direction
  display (bandwidth rate unit direction side) =
      "Bandwidth Fault - Side "
      ++ StreamSide.display (side_or_default side)
      ++ ", Rate: "
      ++ n.show rate
      ++ " "
      ++ BandwidthUnit.display unit
      ++ ", Direction: "
      ++ direction
  display (jitter jitter_amplitude jitter_frequency direction) =
      "Jitter Fault - Amplitude: "
      ++ n.fixed 2 jitter_amplitude
      ++ " ms, Frequency: "
      ++ n.fixed 2 jitter_frequency
      ++ " Hz, Direction: "
      ++ direction
  display (dns dns_rate direction) =
      "DNS Fault - Rate: " ++ n.show dns_rate ++ "%, Direction: " ++ direction
