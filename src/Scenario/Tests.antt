-- ===== src/Scenario/Tests.antt =====
-- Scenario items, calls and expectations at which the theorems are tried out.
use lueur.Prelude.{ℕ, ◌≡◌, refl, true, none, some, List, [], ◌∷◌, ◌++◌, map, done, arith}
use lueur.Prelude.Fixed.{thousandths}
use lueur.Types.FaultConfiguration.{FaultConfiguration, latency}
use lueur.Types.Direction
use lueur.Types.StreamSide
use lueur.Event.{TaskProgressEvent, FaultEvent}
use lueur.Event
use lueur.Scenario.Items.{ScenarioItem, repeat, Scenario, build_item_list, count_scenario_items}
use lueur.Scenario.Items.Laws.{ramped_items, build_item_list_lem}
use lueur.Scenario.Items.Count.{count_scenario_items_lem}
use lueur.Scenario.Lifecycle.{
  Handler, ScenarioItemLifecycle, scenario, proxy, started, terminated, handle_scenario_events,
}
use lueur.Scenario.Lifecycle.Views.{handle_scenario_events_lem, view, view_run}

abbrev slow : FaultConfiguration ℕ
slow = latency (record {
  distribution = some "normal";
  global = none;
  side = none;
  mean = some 100_000;
  stddev = none;
  min = none;
  max = none;
  shape = none;
  scale = none;
  direction = none;
})

abbrev item_with : ℕ → ScenarioItem ℕ
item_with count = record {
  call = record { method = "GET"; url = "http://localhost:7070"; headers = none; body = none };
  context = record {
    upstreams = [];
    faults = slow ∷ [];
    strategy =
        some (record { mode = repeat; failfast = none; step = 50_000; count = count; wait = none });
  };
  expect = none;
}

abbrev three : List (ScenarioItem ℕ)
three = item_with 3 ∷ ramped_items thousandths (item_with 3) (item_with 3).context.strategy

built : build_item_list thousandths (item_with 3) ≡ done three
unfolding build_item_list
built = refl

build_item_list_lem_example : build_item_list thousandths (item_with 3) ≡ done three
build_item_list_lem_example = build_item_list_lem thousandths (item_with 3)

abbrev one_item : Scenario ℕ
one_item = record { title = "ramp"; description = none; scenarios = item_with 3 ∷ [] }

count_scenario_items_lem_example : count_scenario_items one_item ≡ 3
count_scenario_items_lem_example =
    count_scenario_items_lem thousandths one_item (three ∷ []) (built, tt) (omega arith, tt)
      (omega arith)

abbrev delayed : FaultEvent ℕ
delayed = FaultEvent.latency Direction.egress StreamSide.server (some 90_000_000)

abbrev events : List (TaskProgressEvent ℕ)
events =
    Event.with_fault 1 10 delayed
    ∷ Event.ip_resolved 1 11 "localhost" 2
    ∷ Event.with_fault 2 12 delayed
    ∷ Event.fault_applied 1 13 delayed
    ∷ []

abbrev idle : Handler ℕ
idle = record { current = none; queue = [] }

handle_scenario_events_lem_example :
    (item : ScenarioItemLifecycle ℕ) × ((handle_scenario_events
        (scenario (started 5 "http://localhost:7070") ∷ map proxy events
          ++ scenario (terminated 5) ∷ [])
        idle).queue
      ≡ item ∷ [])
    × ((id : ℕ) → view id item ≡ view_run id events ("http://localhost:7070", none))
    × (item.dns_timing ≡ record { host = "localhost"; duration = 2; resolved = true } ∷ [])
handle_scenario_events_lem_example =
    handle_scenario_events_lem 5 5 "http://localhost:7070" events idle
