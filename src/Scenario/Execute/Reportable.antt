-- ===== src/Scenario/Execute/Reportable.antt =====
-- What the report of an item has.
use lueur.Prelude.{
  unwrap_ok, String, ◌≡◌, ◌&&◌, is_some, is_ok, Result, ok, err, done, bind_done, arith,
}
use lueur.Prelude.Float.{Float}
use lueur.Errors.{ProxyError}
use lueur.Upstream.{UrlApi, upstream_to_addr}
use lueur.Types.FaultConfiguration.{build}
use lueur.Scenario.Items.{ScenarioItem}
use lueur.Reporting.Items.{ReportItemMetrics, ReportItemResult}
use lueur.Reporting.Output.Panics.{has_result}
use lueur.Scenario.Execute.{AppState, collect, judge_item, report_of, execute_item}

module _ (fl : Float) where
  open fl use {F}

  report_of-reportable :
      (show_error : ProxyError → String) (item : ScenarioItem F)
      (answer : Result (ReportItemMetrics F) ProxyError) (report : ReportItemResult F)
      → report_of fl show_error item answer ≡ done report
      → (has_result report.expect ≡ (is_some item.expect && is_ok answer))
        × (is_some report.metrics ≡ is_ok answer)
  unfolding report_of judge_item
  report_of-reportable show_error item (ok metrics) report e = ground arith
  report_of-reportable show_error item (err x) report e = ground arith

  -- An item that was executed has metrics in its report exactly if its request succeeded, and a
  -- decision exactly if, besides, the item has an expectation.
  pub execute_item-reportable :
      (u : UrlApi) (to_lowercase : String → String) (show_error : ProxyError → String)
      (answer : Result (ReportItemMetrics F) ProxyError) (item : ScenarioItem F)
      (state : AppState F) (report : ReportItemResult F)
      → execute_item fl u to_lowercase show_error (λ s. answer) item ≡ done (state, report)
      → (has_result report.expect ≡ (is_some item.expect && is_ok answer))
        × (is_some report.metrics ≡ is_ok answer)
  unfolding execute_item
  execute_item-reportable u to_lowercase show_error answer item state report e =
      let (hosts, e1, rest) =
        bind_done (collect (λ h. unwrap_ok (upstream_to_addr u h)) item.context.upstreams) _
          (state, report) e in
      let (faults, e2, rest') =
        bind_done (collect (λ f. unwrap_ok (build fl to_lowercase f)) item.context.faults) _
          (state, report) rest in
      let (made, e3, rest'') =
        bind_done (report_of fl show_error item answer) _ (state, report) rest' in
      report_of-reportable show_error item answer report (ground arith)
