-- ===== src/Fault/Latency.antt =====
-- lueur-cli/src/fault/latency.rs: the delay that is drawn, and the state machine of
-- `LatencyStreamRead` and `LatencyStreamWrite`, which differ in their direction.
pub mod Laws
pub mod Delay
pub mod Body
pub mod Inject
use lueur.Prelude.{
  ℕ, ◌+◌, ◌*◌, ◌==◌, Bool, true, false, ◌&&◌, Option, none, some, List, [], ◌∷◌, if◌then◌else◌,
}
use lueur.Types.Direction.{Direction, is_ingress, is_egress}
use lueur.Types.StreamSide.{StreamSide, same_side}
use lueur.Event.{FaultEvent, TaskProgressEvent, ProxyTaskEvent, on_applied, report}
use lueur.Config.{LatencySettings}
use lueur.Fault.{Stream, Timer, Outcome, Poll, pending}

-- What a poll depends on besides the state: the time, the size of the buffer, and the delay that
-- `get_delay` returns if it is called.
pub record Turn : Type 0 where
  pub now : ℕ
  pub len : ℕ
  pub delay : ℕ

-- The event of a stream, as `on_applied` reports it.
abbrev pub applied :
    {F : Type 0} → Option ProxyTaskEvent → (now : ℕ) → FaultEvent F → List (TaskProgressEvent F)
applied none now fault = []
applied (some event) now fault = report event now (on_applied fault)

module _ (F : Type 0) (inner : Stream) (timer : Timer) where
  open inner use {S, poll}
  open timer use {Sleep, sleep, elapsed}

  pub record LatencyStream : Type 0 where
    pub stream : S
    pub global : Bool
    pub direction : Direction
    pub side : StreamSide
    pub event : Option ProxyTaskEvent
    pub op_sleep : Option Sleep
    pub applied_count : ℕ

  -- The state after a poll, what the poll returned and what was reported.
  pub record Polled : Type 0 where
    pub after : LatencyStream
    pub outcome : Outcome
    pub events : List (TaskProgressEvent F)

  -- A poll of the wrapped stream.
  pass : LatencyStream → (len : ℕ) → List (TaskProgressEvent F) → Polled
  pass st len events =
      let (stream, outcome) = poll len st.stream in
      record { after = record st { stream = stream }; outcome = outcome; events = events }

  await : LatencyStream → Sleep → Turn → List (TaskProgressEvent F) → Polled
  unfolding pass
  await st s turn events =
      if elapsed s turn.now
      then pass (record st { op_sleep = none }) turn.len events
      else record { after = record st { op_sleep = some s }; outcome = pending; events = events }

  -- The part behind the test for the global mode.
  delayed : LatencyStream → Turn → Polled
  unfolding await
  delayed st turn = elim (st.op_sleep) [
    | some s ↦ await st s turn []
    | none ↦
        await (record st { applied_count = st.applied_count + 1 }) (sleep turn.now turn.delay) turn
          (applied st.event turn.now (FaultEvent.latency st.direction st.side (some turn.delay)))
  ]

  unfoldable pub poll_op : LatencyStream → Turn → Polled
  unfolding delayed
  poll_op st turn =
      if st.global && (st.applied_count == 1) then pass st turn.len [] else delayed st turn

  -- `LatencyStreamRead::new` and `LatencyStreamWrite::new`.
  unfoldable pub new : S → Direction → LatencySettings F → Option ProxyTaskEvent → LatencyStream
  new stream direction settings event = record {
    stream = stream;
    global = settings.global;
    direction = direction;
    side = settings.side;
    event = event;
    op_sleep = none;
    applied_count = 0;
  }
