-- ===== src/Fault/PacketLoss/Body.antt =====
-- `apply_on_response` and `apply_on_request` of lueur-cli/src/fault/packet_loss.rs: a body is read
-- through a `PacketLossLimitedRead`. `apply_on_request_builder` returns what it is given.
pub mod Laws
use lueur.Prelude.{ℕ, Option, none, some, List, [], ◌++◌, Result, ok, Run, done, ◌>>=◌}
use lueur.Prelude.Float.{Float}
use lueur.Errors.{ProxyError}
use lueur.Types.Direction.{ingress, egress}
use lueur.Types.StreamSide.{client, server}
use lueur.Event.{TaskProgressEvent, ProxyTaskEvent, FaultEvent, report, on_with_fault}
use lueur.Config.{PacketLossSettings}
use lueur.Fault.Body.{Cursor, ReaderStream, Wrapper, limit_response, ReqwestRequest, limit_request}
use lueur.Fault.PacketLoss.{PacketLossStream, poll_op, new}
use lueur.Proxy.Forward.{Response}

module _ (fl : Float) (cursor : Cursor) where
  open fl use {F}
  open cursor use {stream, of_bytes, content}

  -- The time, the room in the buffer, and the two numbers drawn.
  pub record Turn : Type 0 where
    pub now : ℕ
    pub len : ℕ
    pub rand_val : F
    pub chance : F

  abbrev pub Limited : Type 0
  Limited = PacketLossStream fl stream

  abbrev pub reader : Wrapper F
  reader = record {
    W = Limited;
    Turn = Turn;
    room = λ w t. t.len;
    source = λ w. content w.stream;
    poll = λ w t. poll_op fl stream w t.now t.len t.rand_val t.chance >>= λ p.
        done (p.after, p.outcome, p.events);
  }

  -- The wrapper over a body.
  unfoldable pub wrap : PacketLossSettings → ProxyTaskEvent → List ℕ → Limited
  unfolding new
  wrap settings event bytes = new fl stream (of_bytes bytes) ingress settings.side (some event)

  -- The side of the settings is not looked at.
  unfoldable pub apply_on_response :
      (rs : ReaderStream)
      → PacketLossSettings
      → ProxyTaskEvent
      → (now : ℕ) → Response
      → (turns : List Turn) → Run (Option (Result Response ProxyError) × List (TaskProgressEvent F))
  unfolding wrap limit_response
  apply_on_response rs settings event now resp turns = do
    limited ← limit_response reader rs resp turns (wrap settings event resp.body)
    done (
      limited.0,
      report event now (on_with_fault (FaultEvent.packet_loss ingress server)) ++ limited.1,
    )

  unfoldable pub apply_on_request :
      {L : Type 0} (try_clone : ReqwestRequest L → Option (ReqwestRequest L))
      (body_of : Limited → L)
      → PacketLossSettings
      → ProxyTaskEvent
      → (now : ℕ) → ReqwestRequest L
      → Run (Result (ReqwestRequest L) ProxyError × List (TaskProgressEvent F))
  unfolding wrap limit_request
  apply_on_request try_clone body_of settings event now request = do
    limited ← limit_request try_clone (λ bytes. done (body_of (wrap settings event bytes))) request
    done (limited, report event now (on_with_fault (FaultEvent.packet_loss egress client)))
