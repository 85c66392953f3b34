-- ===== src/Scenario/Lifecycle/Views.antt =====
-- What one task's entry of a lifecycle holds, described for that task alone.
use lueur.Prelude.{
  String, ℕ, ◌==◌, ◌≡◌, refl, ◌∙◌, sym, ap, true, Option, none, some, List, [], ◌∷◌, ◌++◌, map,
  if◌then◌else◌, arith,
}
use mathlib.Core.List.{append-nil, append_assoc}
use lueur.Event.{FaultEvent, TaskId, TaskProgressEvent}
use lueur.Event
use lueur.Scenario.Lifecycle.{
  DnsTiming, ScenarioItemLifecycleFaults, Faults, ScenarioItemLifecycle, scenario, proxy, started,
  terminated, Handler, new_lifecycle, get, insert, push_applied, on_proxy, handle_scenario_events,
}

-- The item's URL, and the entry of one task.
abbrev pub View : Type 0 → Type 0
View F = String × Option (ScenarioItemLifecycleFaults F)

module _ {F : Type 0} where
  get-insert :
      (id k : TaskId) (f : ScenarioItemLifecycleFaults F) (m : Faults F)
      → get id (insert k f m) ≡ (if k == id then some f else get id m)
  unfolding get insert
  get-insert id k f [] = refl
  get-insert id k f ((j, g) ∷ m) = ground (arith, get-insert id k f m)

  abbrev pub push_entry :
      String × FaultEvent F
      → Option (ScenarioItemLifecycleFaults F)
      → Option (ScenarioItemLifecycleFaults F)
  push_entry entry none = none
  push_entry entry (some f) = some (record f { applied = f.applied ++ entry ∷ [] })

  get-push_applied :
      (id k : TaskId) (entry : String × FaultEvent F) (m : Faults F)
      → get id (push_applied k entry m)
        ≡ (if k == id then push_entry entry (get id m) else get id m)
  unfolding get push_applied
  get-push_applied id k entry [] = ground arith
  get-push_applied id k entry ((j, g) ∷ m) = ground (arith, get-push_applied id k entry m)

  abbrev pub view : TaskId → ScenarioItemLifecycle F → View F
  view id item = (item.url, get id item.faults)

  -- A task's entry begins anew, and empty, with each fault declared for the task; it gains each
  -- fault applied for the task, with the URL of that moment. The events of other tasks change at
  -- most the URL.
  abbrev pub view_step : TaskId → TaskProgressEvent F → View F → View F
  view_step id (TaskProgressEvent.started k ts url') (url, entry) = (url', entry)
  view_step id (Event.with_fault k ts fault) (url, entry) =
      (url, if k == id then some (record { url = url; applied = [] }) else entry)
  view_step id (Event.fault_applied k ts fault) (url, entry) =
      (url, if k == id then push_entry (url, fault) entry else entry)
  view_step id _ v = v

  abbrev pub view_run : TaskId → List (TaskProgressEvent F) → View F → View F
  view_run id [] v = v
  view_run id (e ∷ es) v = view_run id es (view_step id e v)

  view-on_proxy :
      (id : TaskId) (e : TaskProgressEvent F) (item : ScenarioItemLifecycle F)
      → view id (on_proxy e item) ≡ view_step id e (view id item)
  unfolding on_proxy
  view-on_proxy id (Event.with_fault k ts fault) item =
      ground (arith, get-insert id k (record { url = item.url; applied = [] }) item.faults)
  view-on_proxy id (Event.fault_applied k ts fault) item =
      ground (arith, get-push_applied id k (item.url, fault) item.faults)
  view-on_proxy id _ item = refl

  -- The addresses resolved, in order.
  abbrev pub resolved : List (TaskProgressEvent F) → List (DnsTiming F)
  resolved [] = []
  resolved (Event.ip_resolved id ts domain time_taken ∷ es) =
      record { host = domain; duration = time_taken; resolved = true } ∷ resolved es
  resolved (_ ∷ es) = resolved es

  gather : List (TaskProgressEvent F) → ScenarioItemLifecycle F → ScenarioItemLifecycle F
  gather [] item = item
  gather (e ∷ es) item = gather es (on_proxy e item)

  view-gather :
      (id : TaskId) (es : List (TaskProgressEvent F)) (item : ScenarioItemLifecycle F)
      → view id (gather es item) ≡ view_run id es (view id item)
  unfolding gather
  view-gather id [] item = refl
  view-gather id (e ∷ es) item =
      view-gather id es (on_proxy e item) ∙ ap (view_run id es) (view-on_proxy id e item)

  dns_timing-gather :
      (es : List (TaskProgressEvent F)) (item : ScenarioItemLifecycle F)
      → (gather es item).dns_timing ≡ item.dns_timing ++ resolved es
  unfolding gather on_proxy
  dns_timing-gather [] item = sym (append-nil _)
  dns_timing-gather (Event.ip_resolved id ts domain time_taken ∷ es) item =
      dns_timing-gather es _ ∙ append_assoc item.dns_timing _ _
  dns_timing-gather (e ∷ es) item = dns_timing-gather es (on_proxy e item)

  handle-gather :
      (id : ℕ) (es : List (TaskProgressEvent F)) (item : ScenarioItemLifecycle F)
      (queue : List (ScenarioItemLifecycle F))
      → (handle_scenario_events
          (map proxy es ++ scenario (terminated id) ∷ [])
          (record { current = some item; queue = queue })).queue
        ≡ queue ++ gather es item ∷ []
  unfolding handle_scenario_events gather
  handle-gather id [] item queue = refl
  handle-gather id (e ∷ es) item queue = handle-gather id es (on_proxy e item) queue

  -- A call that starts, during which the proxy reports `es`, and that ends, adds one lifecycle to
  -- the queue. For every task it holds the entry that begins anew, and empty, with each fault declared
  -- for the task, and that gains each fault applied for it; an entry, and a fault in it, has the URL
  -- that was last started before, by whichever task. It lists the addresses resolved in their order.
  pub handle_scenario_events_lem :
      (start stop : ℕ) (url : String) (es : List (TaskProgressEvent F)) (h : Handler F)
      → (item : ScenarioItemLifecycle F) × ((handle_scenario_events
            (scenario (started start url) ∷ map proxy es ++ scenario (terminated stop) ∷ [])
            h).queue
          ≡ h.queue ++ item ∷ [])
        × ((id : TaskId) → view id item ≡ view_run id es (url, none))
        × (item.dns_timing ≡ resolved es)
  unfolding handle_scenario_events new_lifecycle get
  handle_scenario_events_lem start stop url es h = (
    gather es (new_lifecycle url),
    handle-gather stop es (new_lifecycle url) h.queue,
    (λ id. view-gather id es (new_lifecycle url)),
    dns_timing-gather es (new_lifecycle url),
  )

  handle-unended :
      (es : List (TaskProgressEvent F)) (h : Handler F)
      → (handle_scenario_events (map proxy es ++ []) h).queue ≡ h.queue
  unfolding handle_scenario_events
  handle-unended [] h = refl
  handle-unended (e ∷ es) h = handle-unended es _

  -- A call that starts and does not end adds nothing to the queue.
  pub unended_call-queue :
      (start : ℕ) (url : String) (es : List (TaskProgressEvent F)) (h : Handler F)
      → (handle_scenario_events (scenario (started start url) ∷ map proxy es ++ []) h).queue
        ≡ h.queue
  unfolding handle_scenario_events
  unended_call-queue start url es h = handle-unended es _
