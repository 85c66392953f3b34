-- ===== src/Reporting/Slo.antt =====
-- The evaluation of one item against the service-level objectives of lueur-cli/src/reporting.rs.
-- The coloured marks are constructors; durations are in nanoseconds.
use lueur.Prelude.{String, ℕ, Bool, true, false, Option, none, some, ltb, if◌then◌else◌}
use lueur.Prelude.Float.{Float}
use lueur.Reporting.Items.{
  ReportItemExpectation, ReportItemHttpResult, ReportItemResult, is_success,
}

-- "", the check mark and the cross.
pub data Mark : Type 0 where
  blank met missed : Mark

pub record BreachInfo (F : Type 0) : Type 0 where
  pub amount : F
  pub unit : String
  pub time : ℕ
  pub breached_requests : ℕ

-- The triple that an evaluation returns.
pub record Evaluation (F : Type 0) : Type 0 where
  pub status : Mark
  pub breached : Bool
  pub breach_info : Option (BreachInfo F)

module _ (fl : Float) where
  open fl use {F, lit, of_int, add, sub, mul, div, lt, le, round, max, min, from_secs}

  pub estimate_breach_time : ℕ → F → ℕ
  estimate_breach_time breached_requests delta =
      let breach_seconds = mul (of_int breached_requests) (div delta (lit 1000 0)) in
      let max_breach_seconds = mul (mul (mul (lit 7 0) (lit 24 0)) (lit 60 0)) (lit 60 0) in
      from_secs (min (max breach_seconds (lit 0 0)) max_breach_seconds)

  abbrev pub unevaluated : Evaluation F
  unevaluated = record { status = blank; breached = false; breach_info = none }

  abbrev pub fulfilled : Evaluation F
  fulfilled = record { status = met; breached = false; breach_info = none }

  abbrev unwrap_or : Option F → F → F
  unwrap_or none d = d
  unwrap_or (some x) d = x

  evaluate_result : ReportItemHttpResult F → F → Evaluation F
  unfolding estimate_breach_time
  evaluate_result result threshold =
      let breach_amount = sub (unwrap_or result.response_time (lit 0 0)) threshold in
      if is_success result.decision then fulfilled else record {
        status = missed;
        breached = true;
        breach_info = some (record {
          amount = breach_amount;
          unit = "ms";
          time = estimate_breach_time 1 breach_amount;
          breached_requests = 1;
        });
      }

  evaluate_expectation : Option (ReportItemExpectation F) → F → Evaluation F
  unfolding evaluate_result
  evaluate_expectation none threshold = unevaluated
  evaluate_expectation (some (ReportItemExpectation.http wanted none)) threshold = unevaluated
  evaluate_expectation (some (ReportItemExpectation.http wanted (some result))) threshold =
      evaluate_result result threshold

  unfoldable pub evaluate_latency_slo : ReportItemResult F → F → Evaluation F
  unfolding evaluate_expectation
  evaluate_latency_slo item threshold = evaluate_expectation item.expect threshold

  unfoldable pub error_rate : (total_requests error_requests : ℕ) → F
  error_rate total_requests error_requests =
      if ltb 0 total_requests
      then mul (div (of_int error_requests) (of_int total_requests)) (lit 100 0)
      else lit 0 0

  unfoldable pub evaluate_error_rate_slo :
      ReportItemResult F → (threshold : F) → (total_requests error_requests : ℕ) → Evaluation F
  unfolding estimate_breach_time
  evaluate_error_rate_slo item threshold total_requests error_requests =
      let rate = error_rate total_requests error_requests in
      let breach_amount = sub rate threshold in
      let breached_requests =
        round (mul (div (sub rate threshold) (lit 100 0)) (of_int total_requests)) in
      if le rate threshold then fulfilled else record {
        status = missed;
        breached = true;
        breach_info = some (record {
          amount = breach_amount;
          unit = "%";
          time = estimate_breach_time breached_requests breach_amount;
          breached_requests = breached_requests;
        });
      }
