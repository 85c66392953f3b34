-- ===== src/Termui.antt =====
-- lueur-cli/src/termui.rs: the rows that show the tasks on a terminal. What the `colored` crate and
-- `format!` make of a number are parameters, as are `as_millis_f64` and `as_secs_f64`.
pub mod Text
pub mod Rows
pub mod Laws
mod Tests
use lueur.Prelude.{
  String, ℕ, ◌-◌, ◌==◌, Bool, true, false, Option, none, some, List, [], ◌∷◌, ◌++◌, Run, done,
  panic, ◌>>=◌, if◌then◌else◌,
}
use lueur.Prelude.Float.{Float}
use lueur.Event.{
  TaskId, FaultEvent, TaskProgressEvent, started, with_fault, ip_resolved, fault_applied, ttfb,
  response_received, completed, error,
}
use lueur.Termui.Text.{Terminal}
use lueur.Termui.Rows.{
  TaskInfo, on_ip_resolved, on_with_fault, on_fault_applied, on_response_received, finished_row,
  failed_row, url_text,
}

-- `task_map`, and the rows that were finished, the last one first.
pub record Screen (F : Type 0) : Type 0 where
  pub task_map : List (TaskId × TaskInfo F)
  pub finished : List String

pub find : {F : Type 0} → List (TaskId × TaskInfo F) → TaskId → Option (TaskInfo F)
find [] id = none
find ((key, task_info) ∷ tasks) id = if key == id then some task_info else find tasks id

pub remove : {F : Type 0} → List (TaskId × TaskInfo F) → TaskId → List (TaskId × TaskInfo F)
remove [] id = []
remove ((key, task_info) ∷ tasks) id =
    if key == id then remove tasks id else (key, task_info) ∷ remove tasks id

pub insert :
    {F : Type 0} → List (TaskId × TaskInfo F) → TaskId → TaskInfo F → List (TaskId × TaskInfo F)
unfolding remove
insert tasks id task_info = (id, task_info) ∷ remove tasks id

-- `get_mut`, and a change of what it found.
pub change :
    {F : Type 0}
    → (TaskInfo F → TaskInfo F)
    → List (TaskId × TaskInfo F)
    → TaskId
    → List (TaskId × TaskInfo F)
change f [] id = []
change f ((key, task_info) ∷ tasks) id =
    if key == id then (key, f task_info) ∷ tasks else (key, task_info) ∷ change f tasks id

module _ (fl : Float) (t : Terminal fl) where
  open fl use {F, lit}

  on_started : (ts : ℕ) (url : String) → TaskInfo F
  on_started ts url = record {
    message = url_text fl t url;
    url = url;
    resolution_time = lit 0 0;
    started = ts;
    ttfb = none;
    faults = [];
    status_code = none;
    events = [];
  }

  -- A task that is gone is taken out of the map, and its row is finished.
  finish : (TaskInfo F → Run String) → Screen F → TaskId → Run (Screen F)
  unfolding find remove
  finish row screen id = elim (find screen.task_map id) [
    | none ↦ done screen
    | some task_info ↦ do
      text ← row task_info
      done (record { task_map = remove screen.task_map id; finished = text ∷ screen.finished })
  ]

  with_task : (TaskInfo F → TaskInfo F) → Screen F → TaskId → Screen F
  unfolding change
  with_task f screen id = record screen { task_map = change f screen.task_map id }

  -- The match on an event, at the time `now`.
  unfoldable pub on_event : (now : ℕ) → Screen F → TaskProgressEvent F → Run (Screen F)
  unfolding finish with_task insert on_started on_ip_resolved on_with_fault on_fault_applied
      on_response_received failed_row
  on_event now screen (started id ts url) =
      done (record screen { task_map = insert screen.task_map id (on_started ts url) })
  on_event now screen (ip_resolved id ts domain time_taken) =
      done (with_task (on_ip_resolved fl t time_taken) screen id)
  on_event now screen (with_fault id ts fault) =
      done (with_task (on_with_fault fl t fault) screen id)
  on_event now screen (ttfb id ts) = done (
      with_task (λ task_info. record task_info { ttfb = some (now - task_info.started) }) screen id)
  on_event now screen (fault_applied id ts fault) =
      done (with_task (on_fault_applied fl t fault) screen id)
  on_event now screen (response_received id ts status_code) =
      done (with_task (on_response_received fl t status_code) screen id)
  on_event now screen (completed id ts time_taken down up) =
      finish (finished_row fl t now down up) screen id
  on_event now screen (error id ts text) =
      finish (λ task_info. done (failed_row fl t text task_info)) screen id

  -- The loop over the events received, each with the time at which it is.
  unfoldable pub handle_displayable_events :
      Screen F → List (ℕ × TaskProgressEvent F) → Run (Screen F)
  unfolding on_event
  handle_displayable_events screen [] = done screen
  handle_displayable_events screen ((now, event) ∷ events) = do
    screen' ← on_event now screen event
    handle_displayable_events screen' events
