-- ===== src/Scenario/Request/Laws.antt =====
-- Which requests leave a lifecycle in the queue.
use lueur.Prelude.{
  String, ℕ, ◌+◌, ◌%◌, ◌^◌, ◌≡◌, ap, ◌∙◌, true, List, [], ◌∷◌, ◌++◌, map, length, length-append,
  Result, ok, err, is_ok, done, arith, if◌then◌else◌,
}
use lueur.Prelude.Float.{Float}
use lueur.Errors.{ProxyError}
use lueur.Event.{TaskProgressEvent}
use lueur.Scenario.Items.{ScenarioItemCall}
use lueur.Scenario.Lifecycle.{
  ScenarioItemEvent, started, Received, scenario, proxy, Handler, handle_scenario_events,
}
use lueur.Scenario.Lifecycle.Views.{handle_scenario_events_lem, unended_call-queue}
use lueur.Scenario.Request.{HttpClient, Response, Requested, answer, finish, execute_request}

-- The start of a call is delivered first, then what the proxy reports, and then what is left.
abbrev pub delivered :
    {F : Type 0} → List ScenarioItemEvent → List (TaskProgressEvent F) → List (Received F)
delivered [] reports = map proxy reports
delivered (first ∷ later) reports = scenario first ∷ map proxy reports ++ map scenario later

module _ {Request : Type 0} (client : HttpClient Request) (fl : Float) where
  open fl use {F}

  -- What an answer adds to the queue.
  finish-queue :
      (id : ℕ) (url : String) (total ttfb : F) (answered : Result Response ProxyError)
      (reports : List (TaskProgressEvent F)) (h : Handler F)
      → length
          (handle_scenario_events
            (delivered (started id url ∷ (finish client fl id total ttfb answered).0) reports)
            h).queue
        ≡ length h.queue + (if is_ok (finish client fl id total ttfb answered).1 then 1 else 0)
  unfolding finish
  finish-queue id url total ttfb (err e) reports h =
      omega (arith, ap length (unended_call-queue id url reports h))
  finish-queue id url total ttfb (ok response) reports h =
      let (item, queued, views, dns) = handle_scenario_events_lem id id url reports h in
      ap length queued ∙ length-append h.queue (item ∷ [])

  -- A request whose client can be built returns, and it adds a lifecycle to the queue exactly if it
  -- returns metrics, whatever the proxy reports between its start and its end: a call that fails is
  -- never ended, so nothing is queued for it.
  pub execute_request-queued :
      (counter : ℕ) (call : ScenarioItemCall) (proxy_address : String) (total ttfb : F)
      (reports : List (TaskProgressEvent F)) (h : Handler F)
      → client.has_proxy proxy_address ≡ true
      → (r : Requested F) × (execute_request client fl counter call proxy_address total ttfb
          ≡ done r)
        × (length (handle_scenario_events (delivered r.events reports) h).queue
            ≡ length h.queue + (if is_ok r.result then 1 else 0))
  unfolding execute_request
  execute_request-queued counter call proxy_address total ttfb reports h e =
      let ended = finish client fl counter total ttfb (answer client call) in
      let r : Requested F = record {
        counter = (counter + 1) % 2 ^ 64;
        events = started counter call.url ∷ ended.0;
        result = ended.1;
      } in
      (r, ground arith, finish-queue counter call.url total ttfb (answer client call) reports h)
