-- ===== src/Termui/Text.antt =====
-- The texts of lueur-cli/src/termui.rs that depend on a single value.
use Prim.Native.String.{◌++◌}
use lueur.Prelude.{String, ℕ, ◌==◌, ltb, leb, ◌&&◌, List, [], ◌∷◌, if◌then◌else◌}
use lueur.Prelude.Float.{Float}
use lueur.Event.{FaultEvent, latency, dns, bandwidth, jitter, packet_loss, http_response_fault}
use lueur.Types.Direction.{Direction, ingress, egress, both}
use lueur.Types.StreamSide.{display}

pub record Terminal (fl : Float) : Type 0 where
  -- `colored`
  pub dimmed : String → String
  pub bright_blue : String → String
  pub green : String → String
  pub yellow : String → String
  pub red : String → String
  -- `{}`, `{:.n}` and `{: <n}`
  pub show : ℕ → String
  pub fixed : ℕ → fl.F → String
  pub padded : ℕ → String → String
  -- `as_millis_f64` and `as_secs_f64` of a number of nanoseconds
  pub millis : ℕ → fl.F
  pub secs : ℕ → fl.F

module _ (fl : Float) (t : Terminal fl) where
  open fl use {F, lit, of_int, mul, div, lt}

  fault_name : FaultEvent F → String
  fault_name (latency _ side _) = display side ++ " latency"
  fault_name (dns _ side _) = display side ++ " dns"
  fault_name (bandwidth _ side _) = display side ++ " bandwidth"
  fault_name (jitter _ side _ _) = display side ++ " jitter"
  fault_name (packet_loss _ side) = display side ++ " packet loss"
  fault_name (http_response_fault _ side _ _) = display side ++ " http error"

  -- The names joined by commas.
  unfoldable pub fault_to_string : List (FaultEvent F) → String
  unfolding fault_name
  fault_to_string [] = ""
  fault_to_string (fault ∷ []) = fault_name fault
  fault_to_string (fault ∷ other ∷ faults) =
      fault_name fault ++ ", " ++ fault_to_string (other ∷ faults)

  unfoldable pub latency_to_sparkline_char : ℕ → String
  latency_to_sparkline_char delay =
      let millis = mul (t.secs delay) (lit 1000 0) in
      if lt millis (lit 50 0)
      then t.green "▁"
      else if lt millis (lit 100 0)
      then t.green "▂"
      else if lt millis (lit 200 0)
      then t.yellow "▃"
      else if lt millis (lit 400 0)
      then t.yellow "▄"
      else if lt millis (lit 800 0)
      then t.red "▅"
      else t.red "▆"

  unfoldable pub format_bandwidth : ℕ → String
  format_bandwidth bps =
      if leb 1_000_000_000 bps
      then t.fixed 2 (div (of_int bps) (lit 1_000_000_000 0)) ++ " GBps"
      else if leb 1_000_000 bps
      then t.fixed 2 (div (of_int bps) (lit 1_000_000 0)) ++ " MBps"
      else if leb 1_000 bps
      then t.fixed 2 (div (of_int bps) (lit 1_000 0)) ++ " KBps"
      else t.show bps ++ " Bps"

  unfoldable pub direction_character : Direction → String
  direction_character ingress = "⭭"
  direction_character egress = "⭫"
  direction_character both = "⭭⭫"

  -- The status in its colour, which stands twice in the source.
  unfoldable pub status_text : ℕ → String
  status_text status_code =
      if leb 200 status_code && ltb status_code 300
      then t.green (t.show status_code)
      else if leb 400 status_code && ltb status_code 500
      then t.yellow (t.show status_code)
      else if status_code == 0
      then t.dimmed "-"
      else t.red (t.show status_code)
