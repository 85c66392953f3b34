-- ===== src/Main/Command.antt =====
-- `main` of lueur-cli/src/main.rs: the commands `run` and `scenario run`, up to what they print. The
-- machine, the answers to the requests, and the files that are written are parameters.
pub mod Chosen
pub mod Items
pub mod Laws
mod Tests
use lueur.Prelude.{
  String, ℕ, ◌+◌, Bool, true, false, Option, List, [], ◌∷◌, ◌++◌, length, Result, ok, err, Run,
  done, panic, ◌>>=◌, unwrap_ok, if◌then◌else◌,
}
use lueur.Prelude.Float.{Float}
use lueur.Errors.{ProxyError, ScenarioError}
use lueur.Cli.{ProxyAwareCommandCommon, RunCommandOptions}
use lueur.Config.FromCli.{from}
use lueur.Nic.{Machine, ProxyEbpfConfig, determine_proxy_and_ebpf_config}
use lueur.Plugin.{Http, FaultInjector, Injectors}
use lueur.Upstream.{UrlApi}
use lueur.Proxy.Dispatch.{ProxyState, on_config}
use lueur.Scenario.Items.{ScenarioItem, Scenario, build_item_list}
use lueur.Scenario.Lifecycle.{ScenarioItemLifecycle}
use lueur.Reporting.Items.{ReportItemMetrics, ReportItemResult}
use lueur.Reporting.Save.{Writers, save}
use lueur.Reporting.Output.{build_report_output}
use lueur.Reporting.Render.{Renderers, pretty_report}
use lueur.Types.FaultConfiguration.Display.{Numbers}
use lueur.Main.{Step, run_items, initialize_proxy, get_output_format_result}

-- `determine_proxy_and_ebpf_config(..).unwrap()` and `initialize_proxy`, as both commands start.
start_proxy :
    {F : Type 0} (machine : Machine) (h : Http) (u : UrlApi)
    → ProxyAwareCommandCommon
    → Run (ProxyEbpfConfig × ProxyState F h)
start_proxy machine h u common = do
  proxy_nic_config ←
      unwrap_ok (done (determine_proxy_and_ebpf_config machine common.proxy_address common.iface))
  state ← initialize_proxy h u common.ebpf common.upstream_hosts
  done (proxy_nic_config, state)

-- `run`: the configuration of the options is sent, and the proxy's task takes it up.
unfoldable pub run_command :
    (fl : Float) (machine : Machine) (h : Http) (u : UrlApi) (metrics : FaultInjector h)
    (injectors : Injectors h fl.F)
    → RunCommandOptions fl.F
    → Run (ProxyEbpfConfig × ProxyState fl.F h)
unfolding start_proxy
run_command fl machine h u metrics injectors options = do
  started ← start_proxy machine h u options.common
  done (started.0, on_config h metrics injectors started.1 (from options))

-- What `execute_request` returns for an item, and the lifecycles that were queued meanwhile.
pub record Answer (F : Type 0) : Type 0 where
  pub request : Result (ReportItemMetrics F) ProxyError
  pub queued : List (ScenarioItemLifecycle F)

-- What the loop over the scenarios keeps, and how many items have run.
pub record Session (F : Type 0) : Type 0 where
  pub executed : ℕ
  pub queue : List (ScenarioItemLifecycle F)
  pub results : List (ReportItemResult F)

-- How a run ends that does not panic.
pub data Ending : Type 0 where
  saved : (path text : String) → Ending
  not_generated : (cause : String) → Ending
  unsupported : Ending

-- The files, and `Path::extension`.
pub record Outputs (F : Type 0) : Type 0 where
  pub writers : Writers F
  pub extension : String → Option String

module _ {F : Type 0} (world : ℕ → Answer F) where
  -- The items with their answers, the first of which has the number `n`.
  pub number : (n : ℕ) → List (ScenarioItem F) → List (Step F)
  number n [] = []
  number n (item ∷ items) =
      record { item = item; request = (world n).request; queued = (world n).queued }
      ∷ number (n + 1) items

module _ (fl : Float) (u : UrlApi) (to_lowercase : String → String)
    (show_error : ProxyError → String) (world : ℕ → Answer fl.F) where
  open fl use {F}

  -- `for item in scenario.scenarios`: its items are built, and then run.
  run_sources : Session F → List (ScenarioItem F) → Run (Session F)
  unfolding number
  run_sources s [] = done s
  run_sources s (source ∷ sources) = do
    items ← build_item_list fl source
    ran ← run_items fl u to_lowercase show_error s.queue (number world s.executed items)
    run_sources
        (record {
          executed = s.executed + length items;
          queue = ran.0;
          results = s.results ++ ran.2;
        })
        sources

  -- `while let Some(candidate) = scenarios.next().await`: an error is logged.
  pub run_candidates : Session F → List (Result (Scenario F) ScenarioError) → Run (Session F)
  unfolding run_sources
  run_candidates s [] = done s
  run_candidates s (ok scenario ∷ candidates) = do
    s' ← run_sources s scenario.scenarios
    run_candidates s' candidates
  run_candidates s (err e ∷ candidates) = run_candidates s candidates

  -- `final_report.save("results.json").unwrap()`.
  saved_results : Outputs F → List (ReportItemResult F) → Run (List (ReportItemResult F))
  saved_results outputs results = do
    u ←
        unwrap_ok
          (done (save outputs.writers (record { plugins = []; items = results }) "results.json"))
    done results

  -- `File::create(path).unwrap()`; the result of `write!` is dropped.
  write_report : Outputs F → String → Result String String → Run Ending
  write_report outputs path (ok computed_report) = do
    file ← unwrap_ok (done (outputs.writers.create path))
    done (saved path computed_report)
  write_report outputs path (err e) = done (not_generated e)

  -- From the loaded scenarios on. `r` are the renderers.
  unfoldable pub run_scenarios :
      Numbers fl
      → Renderers F
      → Outputs F
      → (report_path : String) → List (Result (Scenario F) ScenarioError)
      → Run Ending
  unfolding run_candidates saved_results write_report
  run_scenarios n r outputs report_path candidates = do
    s ← run_candidates (record { executed = 0; queue = []; results = [] }) candidates
    results ← saved_results outputs s.results
    report_output ← build_report_output fl results
    elim (get_output_format_result outputs.extension to_lowercase (λ ext. ext) report_path) [
      | ok fmt ↦ write_report outputs report_path (pretty_report fl n r report_output fmt)
      | err e ↦ done unsupported
    ]
