-- ===== src/Scenario/Events.antt =====
-- `ScenarioEventManager` and `ScenarioEvent` of lueur-cli/src/scenario.rs. A method returns what it
-- puts on the channel; the result of `send` is dropped in the source.
use lueur.Prelude.{String, ℕ, ◌+◌, ◌%◌, ◌^◌, List, [], ◌∷◌}
use lueur.Scenario.Lifecycle.{ScenarioItemEvent, started, terminated}

-- The counter; `fetch_add` wraps round.
pub record ScenarioEventManager : Type 0 where
  pub counter : ℕ

pub record ScenarioEvent : Type 0 where
  pub id : ℕ

new : ScenarioEventManager
new = record { counter = 1 }

next_id : ScenarioEventManager → ScenarioEventManager × ℕ
next_id m = (record { counter = (m.counter + 1) % 2 ^ 64 }, m.counter)

unfoldable pub new_event : ScenarioEventManager → ScenarioEventManager × ScenarioEvent
unfolding next_id
new_event m = let (m', event_id) = next_id m in (m', record { id = event_id })

unfoldable pub on_started : ScenarioEvent → (url : String) → List ScenarioItemEvent
on_started event url = started event.id url ∷ []

unfoldable pub on_terminated : ScenarioEvent → List ScenarioItemEvent
on_terminated event = terminated event.id ∷ []
