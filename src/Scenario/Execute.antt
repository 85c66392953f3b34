-- ===== src/Scenario/Execute.antt =====
-- `execute_item` of lueur-cli/src/scenario.rs: the proxy is given the item's
-- upstreams and faults, the request is made, and the answer is held against the expectation. What
-- the request returned, and the `url` crate, are parameters.
pub mod Laws
pub mod Reportable
use Prim.Native.String.{◌++◌}
use lueur.Prelude.{
  unwrap_ok, String, ℕ, ◌==◌, Bool, true, false, Option, none, some, List, [], ◌∷◌, Result, ok, err,
  Run, done, panic, ◌>>=◌, unwrap, if◌then◌else◌,
}
use lueur.Prelude.Float.{Float}
use lueur.Upstream.{UrlApi, upstream_to_addr}
use lueur.Config.{FaultConfig, ProxyConfig}
use lueur.Errors.{ProxyError, ScenarioError}
use lueur.Types.FaultConfiguration.{FaultConfiguration, build}
use lueur.Scenario.Items.{ScenarioItem, ScenarioItemExpectation}
use lueur.Reporting.Items.{
  ReportItemExpectation, ReportItemExpectationDecision, success, failure, unknown,
  ReportItemHttpResult, ReportItemProtocol, ReportItemMetrics, ReportItemResult,
}

abbrev pub collect : {A B : Type 0} → (A → Run B) → List A → Run (List B)
collect f [] = done []
collect f (a ∷ as') = do b ← f a; bs ← collect f as'; done (b ∷ bs)

-- The state that `execute_item` changes: the proxy's upstream hosts, and the last configuration
-- sent to it.
pub record AppState (F : Type 0) : Type 0 where
  pub upstream_hosts : List String
  pub config : ProxyConfig F

module _ (fl : Float) where
  open fl use {F, lit, le}

  -- `met` after the status code was looked at.
  status_met :
      ScenarioItemExpectation F
      → Option ReportItemProtocol
      → ReportItemHttpResult F
      → Option Bool × ReportItemHttpResult F
  status_met r none result = (none, result)
  status_met r (some (ReportItemProtocol.http code body_length)) result = elim (r.status) [
    | none ↦ (none, result)
    | some v ↦ (some (v == code), record result { status_code = some code })
  ]

  time_met :
      ScenarioItemExpectation F
      → F
      → Option Bool × ReportItemHttpResult F
      → Option Bool × ReportItemHttpResult F
  time_met r total_time (some true, result) = elim (r.response_time_under) [
    | none ↦ (some true, result)
    | some v ↦ (some (le total_time v), record result { response_time = some total_time })
  ]
  time_met r total_time (met, result) = (met, result)

  decide_met : Option Bool × ReportItemHttpResult F → Run (ReportItemHttpResult F)
  decide_met (none, result) = panic
  decide_met (some true, result) = done (record result { decision = success })
  decide_met (some false, result) = done (record result { decision = failure })

  -- The result of an expectation; `met.unwrap()` panics if the status was not looked at.
  pub judge : ScenarioItemExpectation F → ReportItemMetrics F → Run (ReportItemHttpResult F)
  unfolding status_met time_met decide_met
  judge r metrics = decide_met (
      time_met r metrics.total_time (
        status_met r metrics.protocol
          (record { status_code = none; response_time = none; decision = unknown })))

  judge_item :
      Option (ScenarioItemExpectation F)
      → ReportItemMetrics F
      → Run (Option (ReportItemExpectation F))
  unfolding judge
  judge_item none metrics = done none
  judge_item (some r) metrics = do
    result ← judge r metrics
    done (
        some (
          ReportItemExpectation.http
            (record { status_code = r.status; response_time_under = r.response_time_under })
            (some result)))

  abbrev blank_report : ScenarioItem F → ReportItemResult F
  blank_report item = record {
    address = item.call.url;
    expect = none;
    faults = item.context.faults;
    metrics = none;
    errors = [];
    total_time = lit 0 0;
  }

  -- `show_error` is the `Display` of `ProxyError`.
  pub report_of :
      (show_error : ProxyError → String)
      → ScenarioItem F
      → Result (ReportItemMetrics F) ProxyError
      → Run (ReportItemResult F)
  unfolding judge_item
  report_of show_error item (ok metrics) = do
    expect ← judge_item item.expect metrics
    done (record (blank_report item) { metrics = some metrics; expect = expect })
  report_of show_error item (err e) =
      done (record (blank_report item) { errors = show_error e ∷ [] })

  -- `request` is what `execute_request` returns, given the configuration that the proxy now has.
  unfoldable pub execute_item :
      UrlApi
      → (to_lowercase : String → String) (show_error : ProxyError → String)
      → (request : AppState F → Result (ReportItemMetrics F) ProxyError) → ScenarioItem F
      → Run (AppState F × ReportItemResult F)
  unfolding report_of upstream_to_addr
  execute_item u to_lowercase show_error request item = do
    upstreams ← collect (λ h. unwrap_ok (upstream_to_addr u h)) item.context.upstreams
    faults ← collect (λ f. unwrap_ok (build fl to_lowercase f)) item.context.faults
    let state : AppState F = record {
      upstream_hosts = upstreams;
      config = record { faults = faults };
    }
    report ← report_of show_error item (request state)
    done (state, report)
