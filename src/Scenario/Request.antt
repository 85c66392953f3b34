-- ===== src/Scenario/Request.antt =====
-- `execute_request` of lueur-cli/src/scenario.rs: what it tells the task that gathers lifecycles, and
-- what it returns. The HTTP client is a parameter; of the clock, the two durations that are measured
-- in milliseconds. The time of the first byte, which TimingStream keeps, does not reach the result.
pub mod Laws
pub mod Timing
mod Tests
use Prim.Native.String.{◌++◌ as append_str}
use lueur.Prelude.{
  String, ℕ, ◌+◌, ◌%◌, ◌^◌, Bool, true, false, Option, none, some, List, [], ◌∷◌, ◌++◌, length,
  Result, ok, err, Run, done, panic, if◌then◌else◌,
}
use lueur.Prelude.Float.{Float}
use lueur.Errors.{ProxyError, invalid_configuration, network_error}
use lueur.Scenario.Items.{ScenarioItemCall}
use lueur.Scenario.Lifecycle.{ScenarioItemEvent}
use lueur.Scenario.Events.{new_event, on_started, on_terminated}
use lueur.Reporting.Items.{ReportItemProtocol, ReportItemMetrics}

pub record RequestBuilder : Type 0 where
  pub method : String
  pub url : String
  pub headers : List (String × String)
  pub body : Option String

-- The chunks of the body, up to its end; each may be an error.
pub record Response : Type 0 where
  pub status : ℕ
  pub chunks : List (Result (List ℕ) String)

-- Errors are the texts that they display.
pub record HttpClient (Request : Type 0) : Type 0 where
  -- whether a client with this proxy can be built
  pub has_proxy : String → Bool
  -- whether `Method::from_bytes` takes the text
  pub is_method : String → Bool
  pub build : RequestBuilder → Result Request String
  pub execute : Request → Result Response String

-- The loop over the stream, which ends at its first error: the buffer after it.
pub receive : List (Result (List ℕ) String) → List ℕ → List ℕ
receive [] buffer = buffer
receive (ok bytes ∷ chunks) buffer = receive chunks (buffer ++ bytes)
receive (err e ∷ chunks) buffer = buffer

-- What a request leaves: the counter of events, what was sent, and what is returned.
pub record Requested (F : Type 0) : Type 0 where
  pub counter : ℕ
  pub events : List ScenarioItemEvent
  pub result : Result (ReportItemMetrics F) ProxyError

module _ {Request : Type 0} (client : HttpClient Request) where
  open client use {has_proxy, is_method, build, execute}

  pub build_request : ScenarioItemCall → Result RequestBuilder ProxyError
  build_request call =
      if is_method call.method
      then ok (record {
        method = call.method;
        url = call.url;
        headers = elim (call.headers) [ none ↦ [] | some headers ↦ headers ];
        body = call.body;
      })
      else err (invalid_configuration "Invalid HTTP method.")

  -- `build_request`, `build` and `execute`, each of which returns its error.
  answer : ScenarioItemCall → Result Response ProxyError
  unfolding build_request
  answer call = elim (build_request call) [
    | err e ↦ err e
    | ok builder ↦ elim (build builder) [
      | err e ↦ err (invalid_configuration (append_str "Failed to build request: " e))
      | ok request ↦ elim (execute request) [
        | err e ↦ err (network_error e)
        | ok response ↦ ok response
      ]
    ]
  ]

  module _ (fl : Float) where
    open fl use {F}

    -- What follows the start: an error returns at once, without `on_terminated`.
    finish :
        (id : ℕ)
        → (conn_duration ttfb_time : F) → Result Response ProxyError
        → List ScenarioItemEvent × Result (ReportItemMetrics F) ProxyError
    unfolding receive on_terminated
    finish id conn_duration ttfb_time (err e) = ([], err e)
    finish id conn_duration ttfb_time (ok response) = (
      on_terminated (record { id = id }),
      ok (record {
        dns = [];
        protocol =
            some (ReportItemProtocol.http response.status (length (receive response.chunks [])));
        ttfb = ttfb_time;
        total_time = conn_duration;
        faults = [];
      }),
    )

    -- The number of the event is drawn from the manager's counter.
    unfoldable pub execute_request :
        (counter : ℕ)
        → ScenarioItemCall
        → (proxy_address : String) (conn_duration ttfb_time : F) → Run (Requested F)
    unfolding answer finish new_event on_started
    execute_request counter call proxy_address conn_duration ttfb_time =
        let (manager, event) = new_event (record { counter = counter }) in
        if has_proxy proxy_address
        then (let (later, result) = finish event.id conn_duration ttfb_time (answer call) in
            done (record {
              counter = manager.counter;
              events = on_started event call.url ++ later;
              result = result;
            }))
        else panic
