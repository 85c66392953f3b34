-- ===== src/Main/Laws.antt =====
-- Which scenario runs have a report.
use lueur.Prelude.{
  unwrap_ok, String, ap, ◌∙◌, is_some, is_ok, ℕ, ltb, ◌+◌, ◌-◌, ◌≡◌, ◌↔◌, refl, Bool, true, false,
  ◌&&◌, Option, none, some, List, All, [], ◌∷◌, ◌++◌, length, done, panic, bind_done, arith, sym,
  length-append,
}
use mathlib.Core.Path.{subst}
use lueur.Prelude.Float.{Float}
use lueur.Errors.{ProxyError}
use lueur.Upstream.{UrlApi, upstream_to_addr}
use lueur.Plugin.{Http}
use lueur.Proxy.Dispatch.{ProxyState, new, update_upstream_hosts}
use lueur.Proxy.Dispatch.Hosts.{Known, collect-Known}
use lueur.Scenario.Execute.Reportable.{execute_item-reportable}
use lueur.Scenario.Execute.{collect, execute_item}
use lueur.Scenario.Lifecycle.{ScenarioItemLifecycle}
use lueur.Reporting.Items.{ReportItemMetrics, ReportItemResult}
use lueur.Reporting.Output.{build_report_output}
use lueur.Reporting.Output.Panics.{
  has_result, has_metrics, all_reportable, build_report_output-panic_iff,
}
use lueur.Main.{Mark, Step, pop, metrics_of, initialize_proxy, run_item, run_items}

-- Each item has an expectation and an answer to its request, and a lifecycle is left for it at the end of its round,
-- where `n` of them are left before the first one.
abbrev pub complete : {F : Type 0} → (n : ℕ) → List (Step F) → Bool
complete n [] = true
complete n (step ∷ steps) =
    is_some step.item.expect
    && is_ok step.request
    && ltb 0 (n + length step.queued)
    && complete (n + length step.queued - 1) steps

length-pop : {A : Type 0} (xs : List A) → length (pop xs).0 ≡ length xs - 1
unfolding pop
length-pop [] = omega arith
length-pop (x ∷ []) = omega arith
length-pop (x ∷ y ∷ xs) = omega (arith, length-pop (y ∷ xs))

is_some-pop : {A : Type 0} (xs : List A) → is_some (pop xs).1 ≡ ltb 0 (length xs)
unfolding pop
is_some-pop [] = ground arith
is_some-pop (x ∷ []) = ground arith
is_some-pop (x ∷ y ∷ xs) = ground (arith, is_some-pop (y ∷ xs))

has_metrics-metrics_of :
    {F : Type 0} (e : Option (ScenarioItemLifecycle F)) (m : Option (ReportItemMetrics F))
    → has_metrics (metrics_of e m) ≡ (is_some e && is_some m)
unfolding metrics_of
has_metrics-metrics_of none m = refl
has_metrics-metrics_of (some e) none = refl
has_metrics-metrics_of (some e) (some m) = refl

module _ (fl : Float) (u : UrlApi) (to_lowercase : String → String)
    (show_error : ProxyError → String) where
  open fl use {F}

  run_item-reportable :
      (queue queue' : List (ScenarioItemLifecycle F)) (step : Step F) (m : Mark)
      (result : ReportItemResult F)
      → run_item fl u to_lowercase show_error queue step ≡ done (queue', m, result)
      → (queue' ≡ (pop (queue ++ step.queued)).0)
        × (has_result result.expect ≡ (is_some step.item.expect && is_ok step.request))
        × (has_metrics result.metrics
            ≡ (is_ok step.request && ltb 0 (length queue + length step.queued)))
  unfolding run_item
  run_item-reportable queue queue' step m result e =
      let (executed, e1, e2) =
        bind_done (execute_item fl u to_lowercase show_error (λ state. step.request) step.item) _
          (queue', m, result) e in
      let (expected, measured) =
        execute_item-reportable fl u to_lowercase show_error step.request step.item executed.0
          executed.1 e1 in
      (
        cc e2,
        cc (e2, expected),
        ground (
          arith,
          has_metrics-metrics_of (pop (queue ++ step.queued)).1 executed.1.metrics,
          is_some-pop (queue ++ step.queued),
          length-append queue step.queued,
        ),
      )

  all_reportable-run_items :
      (queue : List (ScenarioItemLifecycle F)) (steps : List (Step F))
      (left : List (ScenarioItemLifecycle F)) (marks : List Mark)
      (results : List (ReportItemResult F))
      → run_items fl u to_lowercase show_error queue steps ≡ done (left, marks, results)
      → all_reportable results ≡ complete (length queue) steps
  unfolding run_items
  all_reportable-run_items queue [] last marks results e = ground arith
  all_reportable-run_items queue (step ∷ steps) last marks results e =
      let (ran, e1, e2) =
        bind_done (run_item fl u to_lowercase show_error queue step) _ (last, marks, results) e in
      let (later, e3, e4) =
        bind_done (run_items fl u to_lowercase show_error ran.0 steps) _ (last, marks, results)
          e2 in
      let (left, expected, measured) = run_item-reportable queue ran.0 step ran.1 ran.2 e1 in
      let fewer =
        ap (λ (xs : List (ScenarioItemLifecycle F)). length xs) left
        ∙ length-pop (queue ++ step.queued)
        ∙ ap (λ (n : ℕ). n - 1) (length-append queue step.queued) in
      let rest =
        all_reportable-run_items ran.0 steps later.0 later.1 later.2 e3
        ∙ ap (λ (n : ℕ). complete n steps) fewer in
      ground arith

  -- When the items of a scenario have run, building the report panics exactly if some item had
  -- no expectation, or no answer to its request, or if no lifecycle was queued that it could pop.
  pub run_items-report_iff :
      (queue : List (ScenarioItemLifecycle F)) (steps : List (Step F))
      (left : List (ScenarioItemLifecycle F)) (marks : List Mark)
      (results : List (ReportItemResult F))
      → run_items fl u to_lowercase show_error queue steps ≡ done (left, marks, results)
      → (build_report_output fl results ≡ panic) ↔ (complete (length queue) steps ≡ false)
  run_items-report_iff queue steps left marks results e =
      rw (sym (all_reportable-run_items queue steps left marks results e))
        (build_report_output-panic_iff fl results)

-- The proxy starts with the stealth mode of the command line, and then the address that it looks up
-- for a URL made of any declared upstream host is one of its upstream hosts.
pub initialize_proxy-Known :
    {F : Type 0} (h : Http) (u : UrlApi) (ebpf : Bool) (upstream_hosts : List String)
    (state : ProxyState F h)
    → initialize_proxy h u ebpf upstream_hosts ≡ done state
    → All (Known u state.upstream_hosts) upstream_hosts × (state.stealth ≡ ebpf)
unfolding initialize_proxy update_upstream_hosts new
initialize_proxy-Known {F} h u ebpf upstream_hosts state e =
    let (hosts, e1, e2) =
      bind_done (collect (λ host. unwrap_ok (upstream_to_addr u host)) upstream_hosts) _ state e in
    let same : hosts ≡ state.upstream_hosts = cc e2 in
    (
      subst (λ (hs : List String). All (Known u hs) upstream_hosts) same
          (collect-Known u hosts upstream_hosts e1),
      cc e2,
    )
