-- ===== src/Fault/Bandwidth/Body.antt =====
-- `apply_on_response` and `apply_on_request` of lueur-cli/src/fault/bandwidth.rs: a body is read
-- through a `BandwidthLimitedRead`. `apply_on_request_builder` returns what it is given.
pub mod Laws
use lueur.Prelude.{
  ℕ, min, Option, none, some, List, [], ◌++◌, Result, ok, Run, done, panic, ◌>>=◌, unwrap,
}
use lueur.Errors.{ProxyError}
use lueur.Types.Direction.{ingress, egress}
use lueur.Types.StreamSide.{client, server}
use lueur.Event.{TaskProgressEvent, ProxyTaskEvent, FaultEvent, report, on_with_fault}
use lueur.Config.{BandwidthSettings}
use lueur.Fault.Body.{Cursor, ReaderStream, Wrapper, limit_response, ReqwestRequest, limit_request}
use lueur.Fault.Bandwidth.{RateLimiter, BandwidthStream, poll_read, new}
use lueur.Proxy.Forward.{Response}

module _ (F : Type 0) (cursor : Cursor) (limiters : RateLimiter) where
  open cursor use {stream, of_bytes, content}

  -- The time, and the room in the buffer.
  pub record Turn : Type 0 where
    pub now : ℕ
    pub len : ℕ

  abbrev pub Limited : Type 0
  Limited = BandwidthStream F stream limiters

  abbrev pub reader : Wrapper F
  reader = record {
    W = Limited;
    Turn = Turn;
    room = λ w t. min w.max_size t.len;
    source = λ w. content w.stream;
    poll = λ w t.
        let p = poll_read F stream limiters w t.now t.len in done (p.after, p.outcome, p.events);
  }

  -- The wrapper over a body: `new(..).unwrap()`.
  unfoldable pub wrap : BandwidthSettings → ProxyTaskEvent → List ℕ → Run Limited
  unfolding new
  wrap settings event bytes = unwrap (new F stream limiters (of_bytes bytes) settings (some event))

  unfoldable pub apply_on_response :
      (rs : ReaderStream)
      → BandwidthSettings
      → ProxyTaskEvent
      → (now : ℕ) → Response
      → (turns : List Turn) → Run (Option (Result Response ProxyError) × List (TaskProgressEvent F))
  unfolding wrap limit_response
  apply_on_response rs settings event now resp turns = do
    w ← wrap settings event resp.body
    limited ← limit_response reader rs resp turns w
    done (
      limited.0,
      report event now (on_with_fault (FaultEvent.bandwidth ingress server none)) ++ limited.1,
    )

  unfoldable pub apply_on_request :
      {L : Type 0} (try_clone : ReqwestRequest L → Option (ReqwestRequest L))
      (body_of : Limited → L)
      → BandwidthSettings
      → ProxyTaskEvent
      → (now : ℕ) → ReqwestRequest L
      → Run (Result (ReqwestRequest L) ProxyError × List (TaskProgressEvent F))
  unfolding wrap limit_request
  apply_on_request try_clone body_of settings event now request = do
    limited ←
        limit_request try_clone (λ bytes. do w ← wrap settings event bytes; done (body_of w))
          request
    done (limited, report event now (on_with_fault (FaultEvent.bandwidth egress client none)))
