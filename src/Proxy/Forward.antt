-- ===== src/Proxy/Forward.antt =====
-- lueur-cli/src/proxy/forward.rs: a request that is sent on by an HTTP client. The client and what a
-- body yields when it is read are parameters; the reports are those that this file makes itself, and
-- not what the resolver and the plugins report meanwhile.
pub mod Calls
pub mod Headers
pub mod Laws
mod Tests
use Prim.Native.String.{◌++◌}
use lueur.Prelude.{String, ℕ, Bool, List, [], ◌∷◌, Result, ok, err, length, if◌then◌else◌}
use lueur.Errors.{ProxyError, internal}
use lueur.Proxy.Forward.Calls.{Traced, returned, failed, ◌>>=◌, ◌>>◌, value, tell, unwrap, unless}
use lueur.Event.{Report, on_started, on_response, on_completed}
use lueur.Plugin.{Http, CompositePlugin, prepare_client, process_request, process_response}
use lueur.Proxy.Forward.Headers.{HeaderMap, convert_headers}

-- `map_err` with this text, then `?`.
abbrev or_internal : {F A : Type 0} → (text : String) → Result A String → Traced F A
or_internal text (ok a) = ([], returned a)
or_internal text (err e) = ([], failed (internal (text ++ e)))

-- A request, or a response, with what reading its body gives.
pub record Message : Type 0 where
  pub headers : HeaderMap
  pub body : Result (List ℕ) String

-- `reqwest`. `builder` has the resolver that measures look-ups.
pub record Client (Builder Request Url : Type 0) : Type 1 where
  pub Handle : Type 0
  pub builder : Builder
  pub build : Builder → Result Handle String
  pub request : (method : String) → Url → HeaderMap → List ℕ → Result Request String
  pub execute : Handle → Request → Result (ℕ × Message) String
  pub url_text : Url → String

-- An `AxumResponse` whose body is bytes.
pub record Response : Type 0 where
  pub status : ℕ
  pub headers : HeaderMap
  pub body : List ℕ

abbrev pub http : (Builder Request Stream : Type 0) → Http
http Builder Request Stream = record {
  Builder = Builder;
  Request = Request;
  Response = Response;
  Bidirectional = Stream;
  E = ProxyError;
}

module _ {F Builder Request Url : Type 0} (client : Client Builder Request Url) where
  -- The match on what the client's `execute` gave; a failure is reported as a response.
  send : (elapsed request_bytes : ℕ) → client.Handle → Request → Traced F (ℕ × Message)
  send elapsed request_bytes handle req = elim (client.execute handle req) [
    | ok resp ↦ value resp
    | err e ↦ do
      tell (on_response 500)
      tell (on_completed elapsed request_bytes 0)
      ([], failed (internal ("Failed to execute reqwest request: " ++ e)))
  ]

  -- `elapsed` is the time since the start, in nanoseconds.
  unfoldable pub execute :
      {Stream : Type 0} (plugins : CompositePlugin (http Builder Request Stream)) (elapsed : ℕ)
      (method : String)
      → Message
      → Url
      → (passthrough : Bool) → Traced F Response
  unfolding send
  execute plugins elapsed method request upstream passthrough = do
    tell (on_started (client.url_text upstream))
    body_bytes ← or_internal "Failed to read request body: " request.body
    builder ← unless passthrough (prepare_client _ plugins) client.builder
    handle ← unwrap (client.build builder)
    built ←
        or_internal "Failed to build reqwest request: "
          (client.request method upstream (convert_headers request.headers) body_bytes)
    upstream_req ← unless passthrough (process_request _ plugins) built
    (status, resp) ← send elapsed (length body_bytes) handle upstream_req
    resp_body_bytes ← or_internal "Failed to read response body: " resp.body
    axum_response ←
        unless passthrough (process_response _ plugins) (record {
          status = status;
          headers = convert_headers resp.headers;
          body = resp_body_bytes;
        })
    tell (on_response axum_response.status)
    tell (on_completed elapsed (length body_bytes) (length axum_response.body))
    value axum_response
