-- ===== src/Main.antt =====
-- lueur-cli/src/main.rs: the start of the proxy, the loop over the items of a scenario, and the form
-- of the report. The request of an item, and the `url` crate, are parameters.
pub mod Laws
pub mod Command
mod Tests
use lueur.Prelude.{
  unwrap_ok, String, str_eq, ℕ, Bool, ◌||◌, Option, none, some, List, [], ◌∷◌, ◌++◌, map, Result,
  ok, err, Run, done, ◌>>=◌, if◌then◌else◌,
}
use lueur.Prelude.Float.{Float}
use lueur.Errors.{ProxyError}
use lueur.Event.{TaskId}
use lueur.Plugin.{Http}
use lueur.Upstream.{UrlApi, upstream_to_addr}
use lueur.Proxy.Dispatch.{ProxyState, new, update_upstream_hosts}
use lueur.Scenario.Items.{ScenarioItem}
use lueur.Scenario.Execute.{collect, execute_item}
use lueur.Scenario.Lifecycle.{ScenarioItemLifecycle, ScenarioItemLifecycleFaults, applied_events}
use lueur.Reporting.Items.{
  ReportItemExpectation, ReportItemExpectationDecision, success, failure, unknown,
  ReportItemMetricsFaults, ReportItemMetrics, ReportItemResult,
}

pub data OutputFormat : Type 0 where
  markdown text html json yaml : OutputFormat

-- `extension` is that of a path, if there is one; `show_error` is the text of the error.
unfoldable pub get_output_format_result :
    (extension : String → Option String) (to_lowercase : String → String)
    (show_error : String → String)
    → String
    → Result OutputFormat String
get_output_format_result extension to_lowercase show_error file_path = elim (extension file_path) [
  | none ↦ err "File extension is missing or invalid."
  | some ext_str ↦
      let ext = to_lowercase ext_str in
      if str_eq ext "md" || str_eq ext "markdown"
      then ok markdown
      else if str_eq ext "txt"
      then ok text
      else if str_eq ext "html" || str_eq ext "htm"
      then ok html
      else if str_eq ext "json"
      then ok json
      else if str_eq ext "yaml" || str_eq ext "yml"
      then ok yaml
      else err (show_error ext)
]

-- The state of the proxy that is started.
unfoldable pub initialize_proxy :
    {F : Type 0} (h : Http)
    → UrlApi
    → (ebpf : Bool) (upstream_hosts : List String) → Run (ProxyState F h)
initialize_proxy h u ebpf upstream_hosts = do
  upstreams ← collect (λ host. unwrap_ok (upstream_to_addr u host)) upstream_hosts
  done (update_upstream_hosts h (new h ebpf) upstreams)

-- `Vec::pop`: what is left, and the last element.
pub pop : {A : Type 0} → List A → List A × Option A
pop [] = ([], none)
pop (x ∷ []) = ([], some x)
pop (x ∷ y ∷ xs) = let (rest, last) = pop (y ∷ xs) in (x ∷ rest, last)

-- The colour of the mark that an item adds to the progress.
pub data Mark : Type 0 where
  red green grey : Mark

decision_mark : ReportItemExpectationDecision → Mark
decision_mark failure = red
decision_mark success = green
decision_mark unknown = grey

module _ {F : Type 0} where
  mark : Option (ReportItemExpectation F) → Mark
  unfolding decision_mark
  mark none = grey
  mark (some (ReportItemExpectation.http wanted none)) = grey
  mark (some (ReportItemExpectation.http wanted (some status))) = decision_mark status.decision

  -- `to_report_metrics_faults` on each value; the order is that of the map.
  map_faults : List (TaskId × ScenarioItemLifecycleFaults F) → List (ReportItemMetricsFaults F)
  map_faults original_faults =
      map (λ entry. record { url = entry.1.url; applied = applied_events entry.1 }) original_faults

  -- The metrics of the report, with what the popped event tells of the item.
  metrics_of :
      Option (ScenarioItemLifecycle F) → Option (ReportItemMetrics F) → Option (ReportItemMetrics F)
  unfolding map_faults
  metrics_of none metrics = none
  metrics_of (some e) none = none
  metrics_of (some e) (some m) =
      some (record m { dns = e.dns_timing; faults = map_faults e.faults })

-- An item, what its request returned, and the lifecycles that were queued meanwhile.
pub record Step (F : Type 0) : Type 0 where
  pub item : ScenarioItem F
  pub request : Result (ReportItemMetrics F) ProxyError
  pub queued : List (ScenarioItemLifecycle F)

module _ (fl : Float) (u : UrlApi) (to_lowercase : String → String)
    (show_error : ProxyError → String) where
  open fl use {F}

  -- One round: the queue after it, the mark, and the result.
  run_item :
      List (ScenarioItemLifecycle F)
      → Step F
      → Run (List (ScenarioItemLifecycle F) × Mark × ReportItemResult F)
  unfolding pop mark metrics_of
  run_item queue step = do
    executed ← execute_item fl u to_lowercase show_error (λ state. step.request) step.item
    let report = executed.1
    let popped = pop (queue ++ step.queued)
    done (
      popped.0,
      mark report.expect,
      record report { metrics = metrics_of popped.1 report.metrics },
    )

  -- The loop over the items: the queue after it, and the marks and results that it pushes.
  unfoldable pub run_items :
      List (ScenarioItemLifecycle F)
      → List (Step F)
      → Run (List (ScenarioItemLifecycle F) × List Mark × List (ReportItemResult F))
  unfolding run_item
  run_items queue [] = done (queue, [], [])
  run_items queue (step ∷ steps) = do
    ran ← run_item queue step
    let (queue', m, result) = ran
    later ← run_items queue' steps
    done (later.0, m ∷ later.1, result ∷ later.2)
