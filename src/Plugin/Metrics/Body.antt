-- ===== src/Plugin/Metrics/Body.antt =====
-- `apply_on_response` and `apply_on_request` of lueur-cli/src/plugin/metrics.rs: a body is read
-- through a `WrapperStream`. `apply_on_request_builder` returns what it is given.
mod Laws
use lueur.Prelude.{ℕ, Option, List, [], ◌∷◌, ◌++◌, Result, Run, done, ◌>>=◌}
use lueur.Errors.{ProxyError}
use lueur.Event.{Report, TaskProgressEvent, ProxyTaskEvent, report}
use lueur.Fault.Body.{Cursor, ReaderStream, Wrapper, limit_response, ReqwestRequest, limit_request}
use lueur.Plugin.Metrics.{WrapperStream, poll_read, new}
use lueur.Proxy.Forward.{Response}

module _ (F : Type 0) (cursor : Cursor) where
  open cursor use {stream, of_bytes, content}

  -- The time, and the room in the buffer.
  pub record Turn : Type 0 where
    pub now : ℕ
    pub len : ℕ

  -- What a task reports at one moment.
  abbrev pub report_all : ProxyTaskEvent → (now : ℕ) → List (Report F) → List (TaskProgressEvent F)
  report_all event now [] = []
  report_all event now (r ∷ rs) = report event now r ++ report_all event now rs

  abbrev pub reader : ProxyTaskEvent → Wrapper F
  reader event = record {
    W = WrapperStream stream;
    Turn = Turn;
    room = λ w t. t.len;
    source = λ w. content w.stream;
    poll = λ w t.
        let (after, reports, outcome) = poll_read stream w t.len in
        done (after, outcome, report_all event t.now reports);
  }

  unfoldable pub apply_on_response :
      (rs : ReaderStream)
      → ProxyTaskEvent
      → Response
      → (turns : List Turn) → Run (Option (Result Response ProxyError) × List (TaskProgressEvent F))
  unfolding new limit_response
  apply_on_response rs event resp turns =
      limit_response (reader event) rs resp turns (new stream (of_bytes resp.body))

  unfoldable pub apply_on_request :
      {L : Type 0} (try_clone : ReqwestRequest L → Option (ReqwestRequest L))
      (body_of : WrapperStream stream → L)
      → ReqwestRequest L
      → Run (Result (ReqwestRequest L) ProxyError)
  unfolding new limit_request
  apply_on_request try_clone body_of request =
      limit_request try_clone (λ bytes. done (body_of (new stream (of_bytes bytes)))) request
