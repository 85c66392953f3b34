-- ===== src/Fault/Inject.antt =====
-- `inject` of the faults that split a stream (lueur-cli/src/fault/latency.rs, packet_loss.rs and
-- bandwidth.rs), and the three `...Bidirectional` wrappers over the halves, which are the same.
-- `split` is tokio's. Jitter wraps the stream whole: its `inject` is `JitterStream::new`.
pub mod Laws
mod Tests
use lueur.Prelude.{String, ℕ, ◌≡◌, List, [], Result, Run, done, ◌>>=◌, if◌then◌else◌}
use lueur.Types.Direction.{Direction, is_ingress, is_egress}
use lueur.Event.{TaskProgressEvent}
use lueur.Fault.{Stream, Outcome, Poll}

-- What `poll_flush` and `poll_shutdown` return.
abbrev pub Done : Type 0
Done = Poll (Result (Unit {0}) String)

-- The stream that is given, and its halves.
pub record Splitting : Type 1 where
  pub Whole : Type 0
  pub Reader : Stream
  pub Writer : Stream
  pub split : Whole → Reader.S × Writer.S
  pub flush : Writer.S → Writer.S × Done
  pub shutdown : Writer.S → Writer.S × Done

-- A wrapper of one half: a turn is what a poll depends on besides the state.
pub record Layer (F : Type 0) (inner : Stream) : Type 1 where
  pub W : Type 0
  pub Turn : Type 0
  pub room : Turn → ℕ
  pub poll : W → Turn → Run (W × Outcome × List (TaskProgressEvent F))
  pub stream : W → inner.S
  pub with_stream : inner.S → W → W
  pub stream-with_stream : (s : inner.S) (w : W) → stream (with_stream s w) ≡ s

-- `Box<dyn BidirectionalReadHalf>` or `Box<dyn BidirectionalWriteHalf>`: as it was, or wrapped.
pub data Half (S W : Type 0) : Type 0 where
  plain : S → Half S W
  limited : W → Half S W

pub record Bidirectional (R W : Type 0) : Type 0 where
  pub reader : R
  pub writer : W

-- A poll of a half.
unfoldable pub poll_half :
    {F : Type 0} (inner : Stream) (layer : Layer F inner)
    → Half inner.S layer.W
    → layer.Turn
    → Run (Half inner.S layer.W × Outcome × List (TaskProgressEvent F))
poll_half inner layer (plain s) turn =
    let (s', outcome) = inner.poll (layer.room turn) s in done (plain s', outcome, [])
poll_half inner layer (limited w) turn = do
  polled ← layer.poll w turn
  done (limited polled.0, polled.1, polled.2)

-- The stream under a half, and a call that a wrapper only forwards to it.
pub under : {F : Type 0} (inner : Stream) (layer : Layer F inner) → Half inner.S layer.W → inner.S
under inner layer (plain s) = s
under inner layer (limited w) = layer.stream w

unfoldable pub forward :
    {F : Type 0} (inner : Stream) (layer : Layer F inner) (call : inner.S → inner.S × Done)
    → Half inner.S layer.W
    → Half inner.S layer.W × Done
forward inner layer call (plain s) = let (s', d) = call s in (plain s', d)
forward inner layer call (limited w) =
    let (s', d) = call (layer.stream w) in (limited (layer.with_stream s' w), d)

module _ {F : Type 0} (sp : Splitting) (r : Layer F sp.Reader) (w : Layer F sp.Writer) where
  open sp use {Whole, Reader, Writer, split, flush, shutdown}

  abbrev pub Limited : Type 0
  Limited = Bidirectional (Half Reader.S r.W) (Half Writer.S w.W)

  unfoldable pub poll_read : Limited → r.Turn → Run (Limited × Outcome × List (TaskProgressEvent F))
  unfolding poll_half
  poll_read b turn = do
    (half, outcome, events) ← poll_half Reader r b.reader turn
    done (record b { reader = half }, outcome, events)

  unfoldable pub poll_write :
      Limited → w.Turn → Run (Limited × Outcome × List (TaskProgressEvent F))
  unfolding poll_half
  poll_write b turn = do
    (half, outcome, events) ← poll_half Writer w b.writer turn
    done (record b { writer = half }, outcome, events)

  unfoldable pub poll_flush : Limited → Limited × Done
  unfolding forward
  poll_flush b = let (half, d) = forward Writer w flush b.writer in (record b { writer = half }, d)

  unfoldable pub poll_shutdown : Limited → Limited × Done
  unfolding forward
  poll_shutdown b =
      let (half, d) = forward Writer w shutdown b.writer in (record b { writer = half }, d)

  -- Each half is wrapped if the direction asks for it.
  unfoldable pub wrap_halves :
      Direction
      → (wrap_read : Reader.S → Half Reader.S r.W) (wrap_write : Writer.S → Half Writer.S w.W)
      → Whole
      → Limited
  wrap_halves direction wrap_read wrap_write stream =
      let (read_half, write_half) = split stream in
      record {
        reader = if is_ingress direction then wrap_read read_half else plain read_half;
        writer = if is_egress direction then wrap_write write_half else plain write_half;
      }
