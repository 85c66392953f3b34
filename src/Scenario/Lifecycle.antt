-- ===== src/Scenario/Lifecycle.antt =====
-- `handle_scenario_events` of lueur-cli/src/scenario.rs: the task that gathers, for each scenario
-- call, what the proxy reports. The order in which the two channels are served is that of the list
-- of messages. The map of tasks is an association list with at most one entry for each task.
pub mod Views
use lueur.Prelude.{
  String, ℕ, ◌==◌, Bool, true, false, Option, none, some, List, [], ◌∷◌, ◌++◌, map, if◌then◌else◌,
}
use lueur.Event.{FaultEvent, TaskId, TaskProgressEvent}
use lueur.Event

pub record DnsTiming (F : Type 0) : Type 0 where
  pub host : String
  pub duration : F
  pub resolved : Bool

pub record ScenarioItemLifecycleFaults (F : Type 0) : Type 0 where
  pub url : String
  pub applied : List (String × FaultEvent F)

abbrev pub Faults : Type 0 → Type 0
Faults F = List (TaskId × ScenarioItemLifecycleFaults F)

pub record ScenarioItemLifecycle (F : Type 0) : Type 0 where
  pub url : String
  pub dns_timing : List (DnsTiming F)
  pub fault_declared : Option (FaultEvent F)
  pub faults : Faults F

pub data ScenarioItemEvent : Type 0 where
  started : (id : ℕ) (url : String) → ScenarioItemEvent
  terminated : (id : ℕ) → ScenarioItemEvent

-- What `recv` returns on either channel: a message, `Lagged(count)` or `Closed`.
pub data Received (F : Type 0) : Type 0 where
  scenario : ScenarioItemEvent → Received F
  proxy : TaskProgressEvent F → Received F
  lagged : (count : ℕ) → Received F
  closed : Received F

pub record Handler (F : Type 0) : Type 0 where
  pub current : Option (ScenarioItemLifecycle F)
  pub queue : List (ScenarioItemLifecycle F)

module _ {F : Type 0} where
  pub new_lifecycle : String → ScenarioItemLifecycle F
  new_lifecycle url = record { url = url; dns_timing = []; fault_declared = none; faults = [] }

  pub get : TaskId → Faults F → Option (ScenarioItemLifecycleFaults F)
  get id [] = none
  get id ((k, f) ∷ m) = if k == id then some f else get id m

  -- `HashMap::insert`
  unfoldable pub insert : TaskId → ScenarioItemLifecycleFaults F → Faults F → Faults F
  insert id f [] = (id, f) ∷ []
  insert id f ((k, g) ∷ m) = if k == id then (id, f) ∷ m else (k, g) ∷ insert id f m

  -- `if let Some(f) = faults.get_mut(&id) { f.applied.push(..) }`
  pub push_applied : TaskId → String × FaultEvent F → Faults F → Faults F
  push_applied id entry [] = []
  push_applied id entry ((k, g) ∷ m) =
      if k == id
      then (k, record g { applied = g.applied ++ entry ∷ [] }) ∷ m
      else (k, g) ∷ push_applied id entry m

  -- The arm of a proxy event, for the current item.
  pub on_proxy : TaskProgressEvent F → ScenarioItemLifecycle F → ScenarioItemLifecycle F
  unfolding insert push_applied
  on_proxy (TaskProgressEvent.started id ts url) item = record item { url = url }
  on_proxy (Event.with_fault id ts fault) item = record item {
    fault_declared = some fault;
    faults = insert id (record { url = item.url; applied = [] }) item.faults;
  }
  on_proxy (Event.ip_resolved id ts domain time_taken) item = record item {
    dns_timing =
        item.dns_timing ++ record { host = domain; duration = time_taken; resolved = true } ∷ [];
  }
  on_proxy (Event.fault_applied id ts fault) item = record item {
    faults = push_applied id (item.url, fault) item.faults;
  }
  on_proxy (Event.ttfb id ts) item = item
  on_proxy (Event.response_received id ts status_code) item = item
  on_proxy (Event.completed id ts time_taken down up) item = item
  on_proxy (Event.error id ts text) item = item

  map_current :
      (ScenarioItemLifecycle F → ScenarioItemLifecycle F)
      → Option (ScenarioItemLifecycle F)
      → Option (ScenarioItemLifecycle F)
  map_current f none = none
  map_current f (some item) = some (f item)

  push_current :
      Option (ScenarioItemLifecycle F)
      → List (ScenarioItemLifecycle F)
      → List (ScenarioItemLifecycle F)
  push_current none queue = queue
  push_current (some item) queue = queue ++ item ∷ []

  -- One round of the loop on a message.
  pub on_message : Received F → Handler F → Handler F
  unfolding on_proxy map_current push_current new_lifecycle
  on_message (scenario (started id url)) h = record h { current = some (new_lifecycle url) }
  on_message (scenario (terminated id)) h = record h { queue = push_current h.current h.queue }
  on_message (proxy event) h = record h { current = map_current (on_proxy event) h.current }
  on_message (lagged count) h = h
  on_message closed h = h

  -- The loop: it breaks when a channel is closed, or waits when the list ends.
  pub handle_scenario_events : List (Received F) → Handler F → Handler F
  unfolding on_message
  handle_scenario_events [] h = h
  handle_scenario_events (closed ∷ _) h = h
  handle_scenario_events (r ∷ rs) h = handle_scenario_events rs (on_message r h)

  -- `to_report_metrics_faults`
  unfoldable pub applied_events : ScenarioItemLifecycleFaults F → Option (List (FaultEvent F))
  applied_events f = elim (f.applied) [
    | [] ↦ none
    | first ∷ rest ↦ some (map (λ (entry : String × FaultEvent F). entry.1) (first ∷ rest))
  ]
