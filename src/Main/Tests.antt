-- ===== src/Main/Tests.antt =====
-- An item of a scenario, the proxy that it is run through, and the form of its report.
use lueur.Prelude.{ℕ, ◌≡◌, refl, true, none, some, List, [], ◌∷◌, ok, done}
use lueur.Prelude.Fixed.{thousandths}
use lueur.Plugin.{Http}
use lueur.Upstream.Fixed.{shop}
use lueur.Proxy.Dispatch.{ProxyState, new, update_upstream_hosts}
use lueur.Scenario.Items.{ScenarioItem}
use lueur.Scenario.Lifecycle.{ScenarioItemLifecycle}
use lueur.Scenario.Execute.{execute_item}
use lueur.Reporting.Items.{ReportItemMetrics, ReportItemProtocol, ReportItemResult}
use lueur.Main.{grey, Step, run_items, get_output_format_result, yaml}

abbrev numbers : Http
numbers = record { Builder = ℕ; Request = ℕ; Response = ℕ; Bidirectional = ℕ; E = Unit {0} }

abbrev started : ProxyState ℕ numbers
started = update_upstream_hosts numbers (new numbers true) ("shop:80" ∷ [])

reads_yml :
    get_output_format_result (λ path. some "YML") (λ s. "yml") (λ s. s) "report.YML" ≡ ok yaml
unfolding get_output_format_result
reads_yml = refl

abbrev item : ScenarioItem ℕ
item = record {
  call = record { method = "GET"; url = "http://shop/cart"; headers = none; body = none };
  context = record { upstreams = "http://shop" ∷ []; faults = []; strategy = none };
  expect = none;
}

abbrev metrics : ReportItemMetrics ℕ
metrics = record {
  dns = [];
  protocol = some (ReportItemProtocol.http 200 3);
  ttfb = 1;
  total_time = 2;
  faults = [];
}

abbrev seen : ScenarioItemLifecycle ℕ
seen = record { url = "http://shop/cart"; dns_timing = []; fault_declared = none; faults = [] }

abbrev steps : List (Step ℕ)
steps = record { item = item; request = ok metrics; queued = seen ∷ [] } ∷ []

abbrev result : ReportItemResult ℕ
result = record {
  address = "http://shop/cart";
  expect = none;
  faults = [];
  metrics = some metrics;
  errors = [];
  total_time = 0;
}

ran :
    run_items thousandths shop (λ s. s) (λ e. "refused") [] steps
    ≡ done ([], grey ∷ [], result ∷ [])
unfolding run_items execute_item
ran = refl
