-- ===== src/Termui/Laws/Tunnelled.antt =====
-- The row of a tunnel.
use lueur.Prelude.{String, is_some, ℕ, ◌≡◌, Bool, true, false, List, [], ◌∷◌, done, ◌∙◌, arith}
use lueur.Prelude.Float.{Float}
use lueur.Event.{
  TaskId, fault_task, Report, on_started, on_with_fault, on_resolved, on_completed, on_first_byte,
  on_applied, on_response, on_error, report,
}
use lueur.Plugin.{Http, CompositePlugin}
use lueur.Upstream.{UrlApi}
use lueur.Proxy.Tunnel.{Net, handle_connect}
use lueur.Proxy.Tunnel.Laws.{ends_task, handle_connect-ends}
use lueur.Termui.Text.{Terminal}
use lueur.Termui.{Screen, find, handle_displayable_events}
use lueur.Termui.Laws.Open.{open_after, handle_displayable_events-open}
use lueur.Termui.Laws.Unfinished.{messages}

closed-messages :
    {F : Type 0} (id : TaskId) (now : ℕ) (reports : List (Report F)) (before : Bool)
    → ends_task reports ≡ true
    → open_after id before (messages (fault_task id) now reports) ≡ false
unfolding report
closed-messages id now [] before e = ground arith
closed-messages id now (on_started _ ∷ []) before e = ground arith
closed-messages id now (on_with_fault _ ∷ []) before e = ground arith
closed-messages id now (on_resolved _ _ ∷ []) before e = ground arith
closed-messages id now (on_completed _ _ _ ∷ []) before e = ground arith
closed-messages id now (on_first_byte ∷ []) before e = ground arith
closed-messages id now (on_applied _ ∷ []) before e = ground arith
closed-messages id now (on_response _ ∷ []) before e = ground arith
closed-messages id now (on_error _ ∷ []) before e = ground arith
closed-messages id now (r ∷ r' ∷ reports) before e = closed-messages id now (r' ∷ reports) _ e

module _ (fl : Float) (t : Terminal fl) (h : Http) {Ip : Type 0}
    (net : Net Ip h.Bidirectional) where
  open fl use {F}

  -- After the messages of a tunnel's task, unless it panicked, the task is not shown any more.
  pub tunnel-closed :
      (u : UrlApi) (url_text : u.Url → String) (plugins : CompositePlugin h) (passthrough : Bool)
      (resolved_in : F) (elapsed : ℕ) (upstream : u.Url) (status : ℕ) (reports : List (Report F))
      (id : TaskId) (now : ℕ) (screen screen' : Screen F)
      → handle_connect h net u url_text plugins passthrough resolved_in elapsed upstream
        ≡ done (status, done reports)
      → handle_displayable_events fl t screen (messages (fault_task id) now reports) ≡ done screen'
      → is_some (find screen'.task_map id) ≡ false
  tunnel-closed u url_text plugins passthrough resolved_in elapsed upstream status reports id now
        screen screen' e shown =
      handle_displayable_events-open fl t (messages (fault_task id) now reports) screen screen' id
        shown
      ∙ closed-messages id now reports _
          (handle_connect-ends h net u url_text plugins passthrough resolved_in elapsed upstream
            status reports e).1
