-- ===== src/Fault/Latency/Body.antt =====
-- `apply_on_response` and `apply_on_request` of lueur-cli/src/fault/latency.rs: a body is read through
-- a `LatencyStreamRead`, whose polls draw the delay with `get_delay`, and panic where that does.
pub mod Laws
use lueur.Prelude.{
  ℕ, ◌==◌, ◌&&◌, not, is_some, Bool, true, Option, none, some, List, [], ◌++◌, Result, ok, Run,
  done, ◌>>=◌, if◌then◌else◌,
}
use lueur.Prelude.Float.{Float}
use lueur.Errors.{ProxyError}
use lueur.Types.Direction.{ingress, egress}
use lueur.Types.StreamSide.{client, server, same_side}
use lueur.Event.{TaskProgressEvent, ProxyTaskEvent, FaultEvent, report, on_with_fault}
use lueur.Config.{LatencySettings}
use lueur.Fault.{Timer, Outcome, pending}
use lueur.Fault.Body.{Cursor, ReaderStream, Wrapper, limit_response, ReqwestRequest, limit_request}
use lueur.Fault.Latency.{LatencyStream, poll_op, new}
use lueur.Fault.Latency.Delay.{Rand, get_delay}
use lueur.Proxy.Forward.{Response}

module _ (fl : Float) (rand : Rand fl.F) (cursor : Cursor) (timer : Timer) where
  open fl use {F}
  open rand use {R}
  open cursor use {stream, of_bytes, content}

  -- What a poll depends on besides the state: the time, the size of the buffer, and how many samples
  -- a loop of `get_delay` may take.
  pub record Draws : Type 0 where
    pub now : ℕ
    pub len : ℕ
    pub fuel : ℕ

  -- The wrapper with its generator and the settings of its injector.
  pub record Limited : Type 0 where
    pub under : LatencyStream F stream timer
    pub rng : R
    pub settings : LatencySettings F

  -- A poll that comes past the test for the global mode, and finds no sleep, draws a delay.
  draws : Limited → Bool
  draws w = not (w.under.global && (w.under.applied_count == 1)) && not (is_some w.under.op_sleep)

  with_delay :
      Limited → Draws → (delay : ℕ) → (rng : R) → Limited × Outcome × List (TaskProgressEvent F)
  with_delay w t delay rng =
      let p = poll_op F stream timer w.under (record { now = t.now; len = t.len; delay = delay }) in
      (record w { under = p.after; rng = rng }, p.outcome, p.events)

  -- A poll that draws for longer than the fuel allows has not returned: nothing has changed.
  unfoldable pub poll : Limited → Draws → Run (Limited × Outcome × List (TaskProgressEvent F))
  unfolding draws with_delay
  poll w t =
      if draws w
      then (do
        drawn ← get_delay fl rand w.settings t.fuel w.rng
        elim drawn [
          | none ↦ done (w, pending, [])
          | some (delay, rng) ↦ done (with_delay w t delay rng)
        ])
      else done (with_delay w t 0 w.rng)

  abbrev pub reader : Wrapper F
  reader = record {
    W = Limited;
    Turn = Draws;
    room = λ w t. t.len;
    source = λ w. content w.under.stream;
    poll = poll;
  }

  -- The wrapper over a body. `rng` is what `from_entropy` gives.
  unfoldable pub wrap : LatencySettings F → (rng : R) → ProxyTaskEvent → List ℕ → Limited
  unfolding new
  wrap settings rng event bytes = record {
    under = new F stream timer (of_bytes bytes) ingress settings (some event);
    rng = rng;
    settings = settings;
  }

  unfoldable pub apply_on_response :
      (rs : ReaderStream)
      → LatencySettings F
      → (rng : R) → ProxyTaskEvent
      → (now : ℕ) → Response
      → (turns : List Draws)
      → Run (Option (Result Response ProxyError) × List (TaskProgressEvent F))
  unfolding wrap limit_response poll
  apply_on_response rs settings rng event now resp turns =
      if same_side settings.side server
      then (do
        limited ← limit_response reader rs resp turns (wrap settings rng event resp.body)
        done (
          limited.0,
          report event now (on_with_fault (FaultEvent.latency ingress server none)) ++ limited.1,
        ))
      else done (some (ok resp), [])

  unfoldable pub apply_on_request :
      {L : Type 0} (try_clone : ReqwestRequest L → Option (ReqwestRequest L))
      (body_of : Limited → L)
      → LatencySettings F
      → (rng : R) → ProxyTaskEvent
      → (now : ℕ) → ReqwestRequest L
      → Run (Result (ReqwestRequest L) ProxyError × List (TaskProgressEvent F))
  unfolding wrap limit_request
  apply_on_request try_clone body_of settings rng event now request =
      if same_side settings.side client
      then (do
        limited ←
            limit_request try_clone (λ bytes. done (body_of (wrap settings rng event bytes)))
              request
        done (limited, report event now (on_with_fault (FaultEvent.latency egress client none))))
      else done (ok request, [])
