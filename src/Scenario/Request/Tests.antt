-- ===== src/Scenario/Request/Tests.antt =====
-- A call that is answered, and one whose proxy does not answer.
use lueur.Prelude.{
  String, ℕ, ◌+◌, ◌≡◌, refl, true, none, some, List, [], ◌∷◌, length, Result, ok, err, is_ok, done,
  if◌then◌else◌,
}
use lueur.Prelude.Fixed.{thousandths}
use lueur.Event.{TaskProgressEvent}
use lueur.Event
use lueur.Scenario.Items.{ScenarioItemCall}
use lueur.Scenario.Lifecycle.{Handler, handle_scenario_events}
use lueur.Scenario.Request.{RequestBuilder, Response, HttpClient, Requested, execute_request}
use lueur.Reporting.Items.{ReportItemProtocol}
use lueur.Scenario.Request.Laws.{delivered, execute_request-queued}

abbrev answers : Result Response String → HttpClient RequestBuilder
answers response = record {
  has_proxy = λ address. true;
  is_method = λ method. true;
  build = ok;
  execute = λ request. response;
}

-- The second chunk is an error, so the third is not read.
abbrev cut_short : Response
cut_short = record { status = 200; chunks = ok (1 ∷ 2 ∷ []) ∷ err "reset" ∷ ok (3 ∷ []) ∷ [] }

abbrev call : ScenarioItemCall
call = record { method = "GET"; url = "http://localhost:7070"; headers = none; body = none }

abbrev address : String
address = "127.0.0.1:8080"

abbrev reports : List (TaskProgressEvent ℕ)
reports = Event.ip_resolved 1 11 "localhost" 2 ∷ []

abbrev idle : Handler ℕ
idle = record { current = none; queue = [] }

read_two :
    (r : Requested ℕ) × (execute_request
        (answers (ok cut_short))
        thousandths
        1
        call
        address
        7_000
        7_000
      ≡ done r)
    × (r.result
        ≡ ok (record {
          dns = [];
          protocol = some (ReportItemProtocol.http 200 2);
          ttfb = 7_000;
          total_time = 7_000;
          faults = [];
        }))
unfolding execute_request
read_two = (_, refl, refl)

execute_request-queued_example :
    (r : Requested ℕ) × (execute_request
        (answers (err "connection refused"))
        thousandths
        1
        call
        address
        7_000
        7_000
      ≡ done r)
    × (length (handle_scenario_events (delivered r.events reports) idle).queue
        ≡ 0 + (if is_ok r.result then 1 else 0))
execute_request-queued_example =
    execute_request-queued (answers (err "connection refused")) thousandths 1 call address 7_000
      7_000 reports idle refl
