-- ===== src/Proxy/Tests.antt =====
-- A shop behind the proxy, at which the theorems about the proxy are tried out.
use lueur.Prelude.{ℕ, ◌≡◌, refl, false, none, some, [], ◌∷◌, Result, ok, err, done, inl, inr}
use lueur.Prelude.Fixed.{thousandths}
use lueur.Errors.{ProxyError}
use lueur.Event.{TaskManager, fault_task}
use lueur.Plugin.{Http}
use lueur.Scenario.Items.{ScenarioItem}
use lueur.Scenario.Execute.{AppState, execute_item}
use lueur.Reporting.Items.{ReportItemMetrics, ReportItemResult}
use lueur.Upstream.Fixed.{shop}
use lueur.Proxy.Dispatch.{ProxyState, new, contains, update_upstream_hosts, Incoming, serve}
use lueur.Proxy.Dispatch.Requests.{Asks, serve-Asks, execute_item-faulted}

abbrev numbers : Http
numbers = record { Builder = ℕ; Request = ℕ; Response = ℕ; Bidirectional = ℕ; E = Unit {0} }

abbrev state : ProxyState ℕ numbers
state = update_upstream_hosts numbers (new numbers false) ("shop:80" ∷ [])

abbrev request : Incoming
request = record {
  is_connect = false;
  scheme = none;
  authority = none;
  host_header = some "shop";
  path_and_query = some "/cart";
}

asks : Asks "10.0.0.1" false request "http://shop:80/cart"
asks = inr (inr (inl ("shop", refl, refl, refl, refl)))

serve-Asks_example :
    serve shop "10.0.0.1" state request (record { counter = 5 })
    ≡ done (
        ok (
          record { counter = 7 },
          record {
            tunnelled = false;
            upstream_url = "http://shop:80/cart";
            passthrough = false;
            event = fault_task 6;
          },
        ))
unfolding contains update_upstream_hosts new
serve-Asks_example =
    serve-Asks shop "10.0.0.1" state request (record { counter = 5 }) "http://shop:80/cart" "shop"
      "http://shop:80/cart" 80 asks refl refl refl

abbrev item : ScenarioItem ℕ
item = record {
  call = record { method = "GET"; url = "http://shop/cart"; headers = none; body = none };
  context = record { upstreams = "http://shop" ∷ []; faults = []; strategy = none };
  expect = none;
}

abbrev refuse : AppState ℕ → Result (ReportItemMetrics ℕ) ProxyError
refuse s = err (ProxyError.invalid_request "refused")

abbrev after : AppState ℕ
after = record { upstream_hosts = "shop:80" ∷ []; config = record { faults = [] } }

abbrev told : ReportItemResult ℕ
told = record {
  address = "http://shop/cart";
  expect = none;
  faults = [];
  metrics = none;
  errors = "refused" ∷ [];
  total_time = 0;
}

executed : execute_item thousandths shop (λ t. t) (λ e. "refused") refuse item ≡ done (after, told)
unfolding execute_item
executed = refl

execute_item-faulted_example :
    (m' : TaskManager) × (serve shop "10.0.0.1" state request (record { counter = 5 })
      ≡ done (
          ok (
            m',
            record {
              tunnelled = false;
              upstream_url = "http://shop:80/cart";
              passthrough = false;
              event = fault_task 6;
            },
          )))
unfolding update_upstream_hosts new
execute_item-faulted_example =
    execute_item-faulted shop thousandths (λ t. t) (λ e. "refused") refuse item after told []
      "http://shop" [] "10.0.0.1" state request (record { counter = 5 }) "http://shop:80/cart"
      "http://shop:80/cart" "http://shop" executed refl refl asks refl refl refl refl
