-- ===== src/Termui/Laws/Unfinished.antt =====
-- A forwarded request whose body cannot be read, and its row.
use lueur.Prelude.{
  String, is_some, ℕ, ◌==◌, ◌≡◌, ◌≢◌, refl, Bool, true, List, [], ◌∷◌, ◌++◌, map, All, done, err,
  ◌∙◌, ap, arith, if◌then◌else◌,
}
use mathlib.Core.Path.{subst}
use lueur.Prelude.Float.{Float}
use lueur.Event.{
  TaskId, TaskProgressEvent, ProxyTaskEvent, fault_task, Report, on_started, report, started,
  with_fault, ip_resolved, fault_applied, ttfb, response_received, completed, error,
}
use lueur.Plugin.{CompositePlugin}
use lueur.Proxy.Forward.{Client, Message, http, execute}
use lueur.Termui.Text.{Terminal}
use lueur.Termui.{Screen, find, handle_displayable_events}
use lueur.Termui.Laws.Open.{task_id, opens, open_after, handle_displayable_events-open}

-- The messages of a task's reports, all at the same time.
abbrev pub messages :
    {F : Type 0} → ProxyTaskEvent → (now : ℕ) → List (Report F) → List (ℕ × TaskProgressEvent F)
messages event now [] = []
messages event now (r ∷ reports) =
    map (λ message. (now, message)) (report event now r) ++ messages event now reports

here : (id : TaskId) (before : Bool) → (if id == id then true else before) ≡ true
here id before = ground arith

module _ {F : Type 0} (id : TaskId) where
  opens-other : (event : TaskProgressEvent F) → task_id event ≢ id → opens id true event ≡ true
  opens-other (started key _ _) n = ground arith
  opens-other (with_fault key _ _) n = refl
  opens-other (ip_resolved key _ _ _) n = refl
  opens-other (fault_applied key _ _) n = refl
  opens-other (ttfb key _) n = refl
  opens-other (response_received key _ _) n = refl
  opens-other (completed key _ _ _ _) n = ground arith
  opens-other (error key _ _) n = ground arith

  open_after-others :
      (events : List (ℕ × TaskProgressEvent F))
      → All (λ e. task_id e.1 ≢ id) events
      → open_after id true events ≡ true
  open_after-others [] a = refl
  open_after-others ((now, event) ∷ events) (n, a) =
      ap (λ (b : Bool). open_after id b events) (opens-other event n) ∙ open_after-others events a

module _ (fl : Float) (t : Terminal fl) where
  open fl use {F}

  started-open :
      (id : TaskId) (now : ℕ) (url : String) (later : List (ℕ × TaskProgressEvent F))
      (screen screen' : Screen F)
      → All (λ e. task_id e.1 ≢ id) later
      → handle_displayable_events fl t screen ((now, started id now url) ∷ later) ≡ done screen'
      → is_some (find screen'.task_map id) ≡ true
  started-open id now url later screen screen' others h =
      handle_displayable_events-open fl t ((now, started id now url) ∷ later) screen screen' id h
      ∙ ap (λ (b : Bool). open_after id b later) (here id (is_some (find screen.task_map id)))
      ∙ open_after-others id later others

  module _ {Builder Request Stream Url : Type 0} (client : Client Builder Request Url)
      (plugins : CompositePlugin (http Builder Request Stream)) (elapsed : ℕ) (method : String)
      (request : Message) (upstream : Url) (passthrough : Bool) where
    execute-unread :
        (text : String)
        → request.body ≡ err text
        → (execute {F = F} client plugins elapsed method request upstream passthrough).0
          ≡ on_started (client.url_text upstream) ∷ []
    unfolding execute
    execute-unread text e = ground arith

    -- If the body of a forwarded request cannot be read, its task is shown for as long as the loop
    -- runs: after the messages of the request and any others that are not about the task.
    pub unread_body-open :
        (text : String) (id : TaskId) (now : ℕ) (later : List (ℕ × TaskProgressEvent F))
        (screen screen' : Screen F)
        → request.body ≡ err text
        → All (λ e. task_id e.1 ≢ id) later
        → handle_displayable_events fl t screen (
            messages
              (fault_task id)
              now
              (execute client plugins elapsed method request upstream passthrough).0
            ++ later)
          ≡ done screen'
        → is_some (find screen'.task_map id) ≡ true
    unfolding report
    unread_body-open text id now later screen screen' e others h =
        started-open id now (client.url_text upstream) later screen screen' others (
          subst
            (λ (reports : List (Report F)).
              handle_displayable_events fl t screen (messages (fault_task id) now reports ++ later)
              ≡ done screen')
            (execute-unread text e) h)
