-- ===== src/Termui/Laws/Open.antt =====
-- Which tasks are shown.
use lueur.Prelude.{
  String, is_some, ℕ, ◌==◌, ◌≡◌, refl, Bool, true, false, List, [], ◌∷◌, Run, done, bind_done, ap,
  ◌∙◌, arith, if◌then◌else◌,
}
use lueur.Prelude.Float.{Float}
use lueur.Event.{
  TaskId, TaskProgressEvent, started, with_fault, ip_resolved, fault_applied, ttfb,
  response_received, completed, error,
}
use lueur.Termui.Text.{Terminal}
use lueur.Termui.Rows.{TaskInfo, failed_row}
use lueur.Termui.{
  Screen, find, remove, insert, change, finish, with_task, on_event, handle_displayable_events,
}

abbrev pub task_id : {F : Type 0} → TaskProgressEvent F → TaskId
task_id (started id _ _) = id
task_id (with_fault id _ _) = id
task_id (ip_resolved id _ _ _) = id
task_id (fault_applied id _ _) = id
task_id (ttfb id _) = id
task_id (response_received id _ _) = id
task_id (completed id _ _ _ _) = id
task_id (error id _ _) = id

-- Whether the task is open after an event, given whether it was before.
abbrev pub opens : {F : Type 0} → TaskId → Bool → TaskProgressEvent F → Bool
opens id before (started key _ _) = if key == id then true else before
opens id before (completed key _ _ _ _) = if key == id then false else before
opens id before (error key _ _) = if key == id then false else before
opens id before _ = before

abbrev pub open_after : {F : Type 0} → TaskId → Bool → List (ℕ × TaskProgressEvent F) → Bool
open_after id before [] = before
open_after id before ((now, event) ∷ events) = open_after id (opens id before event) events

module _ {F : Type 0} where
  find-remove :
      (tasks : List (TaskId × TaskInfo F)) (key id : TaskId)
      → is_some (find (remove tasks key) id)
        ≡ (if key == id then false else is_some (find tasks id))
  unfolding find remove
  find-remove [] key id = ground arith
  find-remove ((other, task_info) ∷ tasks) key id = ground (arith, find-remove tasks key id)

  find-change :
      (f : TaskInfo F → TaskInfo F) (tasks : List (TaskId × TaskInfo F)) (key id : TaskId)
      → is_some (find (change f tasks key) id) ≡ is_some (find tasks id)
  unfolding find change
  find-change f [] key id = refl
  find-change f ((other, task_info) ∷ tasks) key id = ground (arith, find-change f tasks key id)

module _ (fl : Float) (t : Terminal fl) where
  open fl use {F}

  finish-open :
      (row : TaskInfo F → Run String) (screen screen' : Screen F) (key id : TaskId)
      → finish fl t row screen key ≡ done screen'
      → is_some (find screen'.task_map id)
        ≡ (if key == id then false else is_some (find screen.task_map id))
  unfolding finish
  finish-open row screen screen' key id e = ground (arith, find-remove screen.task_map key id)

  with_task-open :
      (f : TaskInfo F → TaskInfo F) (screen screen' : Screen F) (key id : TaskId)
      → Path (Run (Screen F)) (done (with_task fl t f screen key)) (done screen')
      → is_some (find screen'.task_map id) ≡ is_some (find screen.task_map id)
  unfolding with_task
  with_task-open f screen screen' key id e = ground (arith, find-change f screen.task_map key id)

  on_event-open :
      (now : ℕ) (screen screen' : Screen F) (event : TaskProgressEvent F) (id : TaskId)
      → on_event fl t now screen event ≡ done screen'
      → is_some (find screen'.task_map id) ≡ opens id (is_some (find screen.task_map id)) event
  unfolding on_event insert find with_task
  on_event-open now screen screen' (started key ts url) id e =
      ground (arith, find-remove screen.task_map key id)
  on_event-open now screen screen' (with_fault key _ _) id e =
      with_task-open _ screen screen' key id e
  on_event-open now screen screen' (ip_resolved key _ _ _) id e =
      with_task-open _ screen screen' key id e
  on_event-open now screen screen' (fault_applied key _ _) id e =
      with_task-open _ screen screen' key id e
  on_event-open now screen screen' (ttfb key _) id e = with_task-open _ screen screen' key id e
  on_event-open now screen screen' (response_received key _ _) id e =
      with_task-open _ screen screen' key id e
  on_event-open now screen screen' (completed key _ _ _ _) id e =
      finish-open _ screen screen' key id e
  on_event-open now screen screen' (error key ts text) id e =
      finish-open (λ info. done (failed_row fl t text info)) screen screen' key id e

  -- A task is shown after a sequence of events that ends without a panic exactly if the last event
  -- that starts or ends it starts it, or if there is none and it was shown before.
  pub handle_displayable_events-open :
      (events : List (ℕ × TaskProgressEvent F)) (screen screen' : Screen F) (id : TaskId)
      → handle_displayable_events fl t screen events ≡ done screen'
      → is_some (find screen'.task_map id)
        ≡ open_after id (is_some (find screen.task_map id)) events
  unfolding handle_displayable_events
  handle_displayable_events-open [] screen screen' id e = ground arith
  handle_displayable_events-open ((now, event) ∷ events) screen screen' id e =
      let (next, e1, e2) = bind_done (on_event fl t now screen event) _ screen' e in
      handle_displayable_events-open events next screen' id e2
      ∙ ap (λ (b : Bool). open_after id b events) (on_event-open now screen next event id e1)
