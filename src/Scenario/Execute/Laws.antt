-- ===== src/Scenario/Execute/Laws.antt =====
-- The decision on an expectation, and when there is none.
use lueur.Prelude.{
  ℕ, ◌==◌, ◌≡◌, Bool, true, ◌&&◌, Option, none, some, done, panic, arith, if◌then◌else◌, Bool-cases,
  inl, inr,
}
use lueur.Prelude.Float.{Float}
use lueur.Scenario.Items.{ScenarioItemExpectation}
use lueur.Reporting.Items.{success, failure, ReportItemProtocol, ReportItemMetrics}
use lueur.Scenario.Execute.{judge}

module _ (fl : Float) where
  open fl use {F, le}

  -- Whether the answer is in time; an expectation without a bound takes any time.
  abbrev pub in_time : Option F → F → Bool
  in_time none total_time = true
  in_time (some v) total_time = le total_time v

  -- The time that is recorded: it is looked at only if the code is the expected one and there is a
  -- bound.
  abbrev pub recorded_time : Bool → Option F → F → Option F
  recorded_time true (some v) total_time = some total_time
  recorded_time _ _ total_time = none

  -- With an expected status and an HTTP answer there is a decision: a success exactly when the
  -- codes are equal and the answer is in time, and otherwise a failure. The code is recorded, and
  -- the time is if the codes are equal and the expectation bounds it.
  pub judge-http :
      (r : ScenarioItemExpectation F) (metrics : ReportItemMetrics F) (status code body_length : ℕ)
      → r.status ≡ some status
      → metrics.protocol ≡ some (ReportItemProtocol.http code body_length)
      → judge fl r metrics
        ≡ done (record {
          status_code = some code;
          response_time = recorded_time (status == code) r.response_time_under metrics.total_time;
          decision =
              if (status == code) && in_time r.response_time_under metrics.total_time
              then success
              else failure;
        })
  unfolding judge
  judge-http r metrics status code n e e' = elim (Bool-cases (status == code)) [
    | inl same ↦ ground arith
    | inr other ↦ ground arith
  ]

  -- An expectation that names no status cannot be judged: the run panics, whatever the answer was.
  pub judge-no_status :
      (r : ScenarioItemExpectation F) (metrics : ReportItemMetrics F)
      → r.status ≡ none
      → judge fl r metrics ≡ panic
  unfolding judge
  judge-no_status r metrics e = ground arith
