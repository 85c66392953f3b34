-- ===== src/Main/Command/Laws.antt =====
-- How the commands end, and the proxy that they start.
use mathlib.Core.Path.{subst}
use lueur.Prelude.{
  ap, ◌++◌, ◌∷◌, is_ok, ◌&&◌, String, ℕ, ◌≡◌, refl, sym, ◌∙◌, ◌↔◌, Bool, false, List, [], Result,
  ok, err, Run, done, panic, ◌>>=◌, bind_done, Result-cases, ◌≢◌, unwrap_ok, unwrap_ok-done, All,
  Run-cases, inl, inr, arith,
}
use lueur.Prelude.Float.{Float}
use lueur.Errors.{ProxyError, ScenarioError}
use lueur.Upstream.{UrlApi}
use lueur.Scenario.Items.{Scenario}
use lueur.Reporting.Save.{save}
use lueur.Reporting.Output.{ReportOutput, build_report_output}
use lueur.Main.{Step, get_output_format_result, run_items}
use lueur.Main.Laws.{complete, run_items-report_iff}
use lueur.Types.FaultConfiguration.Display.{Numbers}
use lueur.Reporting.Render.{Renderers, pretty_report}
use lueur.Cli.{RunCommandOptions}
use lueur.Config.{ProxyConfig}
use lueur.Main.Command.Chosen.{faults_chosen, injectors_chosen, from-faults, load_injectors-from}
use lueur.Config.FromCli.{from}
use lueur.Nic.{Machine, ProxyEbpfConfig, determine_proxy_and_ebpf_config}
use lueur.Plugin.{Http, FaultInjector, Injectors, load_injectors, set_injectors}
use lueur.Proxy.Dispatch.{ProxyState, on_config}
use lueur.Proxy.Dispatch.Hosts.{Known}
use lueur.Main.{initialize_proxy}
use lueur.Main.Laws.{initialize_proxy-Known}
use lueur.Main.Command.{
  start_proxy, run_command, Outputs, Ending, saved, not_generated, unsupported, write_report,
  saved_results, Answer, Session, number,
}
use lueur.Main.Command.Items.{items_of, Ran}

not_both : {A : Type 0} {r : Run A} {a : A} → r ≡ panic → r ≡ done a → ⊥
not_both e e' = cc

module _ (fl : Float) (u : UrlApi) (to_lowercase : String → String)
    (show_error : ProxyError → String) (world : ℕ → Answer fl.F) where
  open fl use {F}

  abbrev start : Session F
  start = record { executed = 0; queue = []; results = [] }

  -- What the command does once the report is built.
  abbrev end_with : Numbers fl → Renderers F → Outputs F → String → ReportOutput F → Run Ending
  end_with n r outputs path out =
      elim (get_output_format_result outputs.extension to_lowercase (λ ext. ext) path) [
        | ok fmt ↦
            write_report fl u to_lowercase show_error world outputs path
              (pretty_report fl n r out fmt)
        | err e ↦ done unsupported
      ]

  write_report-done :
      (outputs : Outputs F) (path : String) (text : Result String String)
      → ((p : String) → outputs.writers.create p ≡ ok tt)
      → (ending : Ending) × (write_report fl u to_lowercase show_error world outputs path text
          ≡ done ending)
  unfolding write_report
  write_report-done outputs path (ok text) created = (saved path text, rw (created path))
  write_report-done outputs path (err e) created = (not_generated e, refl)

  reported :
      (n : Numbers fl) (r : Renderers F) (outputs : Outputs F) (path : String)
      (out : ReportOutput F)
      → ((p : String) → outputs.writers.create p ≡ ok tt)
      → end_with n r outputs path out ≢ panic
  reported n r outputs path out creates =
      elim (Result-cases
        (get_output_format_result outputs.extension to_lowercase (λ ext. ext) path)) [
          | inl (fmt, e) ↦
              let (ending, written) =
                write_report-done outputs path (pretty_report fl n r out fmt) creates in
              λ h. ground (arith, e, written)
          | inr (cause, e) ↦ λ h. ground (arith, e)
        ]

  -- The report on what has run, and what is done with it.
  ended :
      (n : Numbers fl) (r : Renderers F) (outputs : Outputs F) (path : String)
      (steps : List (Step F)) (all : Ran fl u to_lowercase show_error)
      → ((p : String) → outputs.writers.create p ≡ ok tt)
      → run_items fl u to_lowercase show_error [] steps ≡ done all
      → ((saved_results fl u to_lowercase show_error world outputs all.2 >>= λ results.
            build_report_output fl results >>= end_with n r outputs path)
          ≡ panic)
        ↔ ((is_ok (save outputs.writers (record { plugins = []; items = all.2 }) "results.json")
              && complete 0 steps)
            ≡ false)
  unfolding saved_results
  ended n r outputs path steps all creates e =
      let report = run_items-report_iff fl u to_lowercase show_error [] steps all.0 all.1 all.2 e in
      elim (Result-cases
        (save outputs.writers (record { plugins = []; items = all.2 }) "results.json")) [
          | inr (cause, unsaved) ↦ rw unsaved (λ h. refl, λ h. refl)
          | inl (u', saves) ↦ rw saves (elim (Run-cases (build_report_output fl all.2)) [
            | inl fails ↦ rw fails (λ h. report.0 fails, λ h. refl)
            | inr (out, made) ↦ rw made (
              λ h. absurd (reported n r outputs path out creates h),
              λ h. absurd (not_both (report.1 h) made),
            )
          ])
        ]

  -- The items of the scenarios can be built and run, and results.json can be written, and each
  -- item has an expectation, an answer, and a lifecycle that is left for it at the end of its round.
  abbrev pub finishes : Outputs F → List (Result (Scenario F) ScenarioError) → Bool
  finishes outputs candidates = elim (items_of fl candidates) [
    | panic ↦ false
    | done items ↦ elim (run_items fl u to_lowercase show_error [] (number world 0 items)) [
      | panic ↦ false
      | done all ↦
          is_ok (save outputs.writers (record { plugins = []; items = all.2 }) "results.json")
          && complete 0 (number world 0 items)
    ]
  ]

on_config-sets :
    {F : Type 0} (h : Http) (metrics : FaultInjector h) (i : Injectors h F) (st : ProxyState F h)
    (c : ProxyConfig F)
    → ((on_config h metrics i st c).shared_config ≡ c)
      × ((on_config h metrics i st c).plugins.injectors ≡ load_injectors h i c ++ metrics ∷ [])
      × ((on_config h metrics i st c).stealth ≡ st.stealth)
      × ((on_config h metrics i st c).upstream_hosts ≡ st.upstream_hosts)
unfolding on_config set_injectors
on_config-sets h metrics i st c = (refl, refl, refl, refl)

-- The proxy that `run` starts has the network configuration that the machine gives, the stealth mode
-- of the options, and, for every declared upstream, the host and port of its URL. Its faults are those
-- that the options enable, in a fixed order and each with its own options' values; its injectors
-- are those of these faults but packet duplication, and the metrics injector after them.
pub run_command-started :
    (fl : Float) (machine : Machine) (h : Http) (u : UrlApi) (metrics : FaultInjector h)
    (injectors : Injectors h fl.F) (options : RunCommandOptions fl.F) (config : ProxyEbpfConfig)
    (state : ProxyState fl.F h)
    → run_command fl machine h u metrics injectors options ≡ done (config, state)
    → (determine_proxy_and_ebpf_config machine options.common.proxy_address options.common.iface
        ≡ ok config)
      × (state.stealth ≡ options.common.ebpf)
      × (state.shared_config.faults ≡ faults_chosen options)
      × All (Known u state.upstream_hosts) options.common.upstream_hosts
      × (state.plugins.injectors ≡ injectors_chosen options h injectors ++ metrics ∷ [])
unfolding run_command start_proxy
run_command-started fl machine h u metrics injectors options config state e =
    let common = options.common in
    let (started, e1, e2) = bind_done (start_proxy machine h u common) _ (config, state) e in
    let (nic, a1, a2) =
      bind_done
        (unwrap_ok
          (done (determine_proxy_and_ebpf_config machine common.proxy_address common.iface)))
        _ started e1 in
    let (st, b1, b2) =
      bind_done (initialize_proxy h u common.ebpf common.upstream_hosts) _ started a2 in
    let (known, stealth) = initialize_proxy-Known h u common.ebpf common.upstream_hosts st b1 in
    let found =
      unwrap_ok-done
        (done (determine_proxy_and_ebpf_config machine common.proxy_address common.iface)) nic a1 in
    let now : on_config h metrics injectors started.1 (from options) ≡ state = cc e2 in
    let (set, loaded, still, hosts) = on_config-sets h metrics injectors started.1 (from options) in
    let same : st ≡ started.1 = cc b2 in
    (
      cc (found, b2, e2),
      sym (ap (λ (s : ProxyState fl.F h). s.stealth) now)
          ∙ still
          ∙ sym (ap (λ (s : ProxyState fl.F h). s.stealth) same)
          ∙ stealth,
      sym (ap (λ (s : ProxyState fl.F h). s.shared_config.faults) now)
          ∙ ap (λ (c : ProxyConfig fl.F). c.faults) set
          ∙ from-faults options,
      subst (λ hs. All (Known u hs) common.upstream_hosts)
          (ap (λ (s : ProxyState fl.F h). s.upstream_hosts) same
            ∙ sym hosts
            ∙ ap (λ (s : ProxyState fl.F h). s.upstream_hosts) now)
          known,
      sym (ap (λ (s : ProxyState fl.F h). s.plugins.injectors) now)
          ∙ loaded
          ∙ ap (λ (xs : List (FaultInjector h)). xs ++ metrics ∷ [])
              (load_injectors-from options h injectors),
    )
