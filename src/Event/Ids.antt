-- ===== src/Event/Ids.antt =====
-- The numbers that a `TaskManager` hands out.
use lueur.Prelude.{◌+◌, ◌%◌, ◌<◌, ◌^◌, ◌≡◌, refl, List, [], ◌∷◌, length, arith}
use lueur.Event.{
  TaskManager, TaskId, new, next_id, new_fault_event, new_passthrough_event, fault_task,
  passthrough_task, ProxyTaskEvent,
}

-- What a client of the manager asks for.
pub data Request : Type 0 where
  fault passthrough : Request

abbrev pub new_event : Request → TaskManager → TaskManager × ProxyTaskEvent
new_event fault m = new_fault_event m
new_event passthrough m = new_passthrough_event m

-- The manager after a sequence of requests, given from the last one.
abbrev pub after : List Request → TaskManager → TaskManager
after [] m = m
after (r ∷ rs) m = (new_event r (after rs m)).0

abbrev pub task_id : ProxyTaskEvent → TaskId
task_id (fault_task id) = id
task_id (passthrough_task id) = id

counter-after :
    (rs : List Request) (m : TaskManager)
    → m.counter < 2 ^ 64
    → (after rs m).counter ≡ (m.counter + length rs) % 2 ^ 64
unfolding new_fault_event new_passthrough_event next_id
counter-after [] m h = omega arith
counter-after (fault ∷ rs) m h = omega (arith, counter-after rs m h)
counter-after (passthrough ∷ rs) m h = omega (arith, counter-after rs m h)

id-new_event : (r : Request) (m : TaskManager) → task_id (new_event r m).1 ≡ m.counter
unfolding new_fault_event new_passthrough_event next_id
id-new_event fault m = refl
id-new_event passthrough m = refl

-- Two tasks, each made after some sequence of requests, that have the same number were made after
-- equally many requests: among the first 2^64 tasks, faulted or not, no number is used twice.
pub ids_distinct :
    (before before' : List Request) (r r' : Request)
    → length before < 2 ^ 64
    → length before' < 2 ^ 64
    → task_id (new_event r (after before new)).1 ≡ task_id (new_event r' (after before' new)).1
    → length before ≡ length before'
unfolding new
ids_distinct before before' r r' h h' e = omega (
  arith,
  id-new_event r (after before new),
  id-new_event r' (after before' new),
  counter-after before new (omega arith),
  counter-after before' new (omega arith),
)
