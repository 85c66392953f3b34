-- ===== src/Fault/Tests.antt =====
-- Streams, a timer and a limiter at which the theorems on the stream faults are tried out.
use lueur.Prelude.{
  ℕ, ◌+◌, ◌≤◌, ◌≡◌, ap, ltb, refl, Bool, true, false, none, some, [], ◌∷◌, Result, ok, err, done,
  leb, if◌then◌else◌, arith, length,
}
use lueur.Prelude.Fixed.{thousandths}
use lueur.Types.Direction.{Direction}
use lueur.Types.StreamSide
use lueur.Types.BandwidthUnit.{mbps}
use lueur.Event.{FaultEvent, fault_task}
use lueur.Config.{BandwidthSettings}
use lueur.Fault.{Stream, Timer, ready}
use lueur.Fault.Latency.{LatencyStream, applied}
use lueur.Fault.Latency
use lueur.Fault.Latency.Laws.{
  Passes, after_all, fault_count, delayed_until, global_only_first_waits,
}
use lueur.Fault.PacketLoss.{PacketLossStream, good, to_index}
use lueur.Fault.PacketLoss
use lueur.Fault.PacketLoss.Laws.{poll_op_lem, Near, loss_of}
use lueur.Fault.Bandwidth.{RateLimiter, Cells, not_until}

-- A stream that moves all it is asked for, and counts the bytes.
abbrev pub counting : Stream
counting = record { S = ℕ; poll = λ len s. (s + len, ready (ok len)) }

abbrev pub clock : Timer
clock = record {
  Sleep = ℕ;
  sleep = λ now delay. now + delay;
  elapsed = leb;
  elapsed-sleep = λ start delay now. refl;
}

abbrev delayed_stream : Bool → LatencyStream ℕ counting clock
delayed_stream global = record {
  stream = 0;
  global = global;
  direction = Direction.ingress;
  side = StreamSide.server;
  event = some (fault_task 1);
  op_sleep = none;
  applied_count = 0;
}

abbrev at : ℕ → Latency.Turn
at now = record { now = now; len = 8; delay = 100 }

abbrev waiting : LatencyStream ℕ counting clock
waiting = after_all ℕ counting clock (delayed_stream false) (at 0 ∷ at 50 ∷ [])

delayed_until_example :
    (waiting.stream ≡ 0)
    × (fault_count ℕ counting clock (delayed_stream false) (at 0 ∷ at 50 ∷ [])
        ≡ length (Latency.poll_op ℕ counting clock (delayed_stream false) (at 0)).events)
    × Passes ℕ counting clock waiting (at 100)
    × ((Latency.poll_op ℕ counting clock waiting (at 100)).after.op_sleep ≡ none)
delayed_until_example =
    delayed_until ℕ counting clock (delayed_stream false) (at 0) (at 50 ∷ []) (at 100) refl refl
      (omega arith) (omega arith, tt) (omega arith)

global_only_first_waits_example :
    Passes ℕ counting clock (after_all ℕ counting clock (delayed_stream true) (at 0 ∷ [])) (at 1)
    × (fault_count ℕ counting clock (delayed_stream true) (at 0 ∷ [])
        ≡ length (Latency.poll_op ℕ counting clock (delayed_stream true) (at 0)).events)
global_only_first_waits_example =
    global_only_first_waits ℕ counting clock (delayed_stream true) (at 0) [] (at 1) refl refl refl

abbrev lossy : PacketLossStream thousandths counting
lossy = record {
  stream = 0;
  state = good;
  direction = Direction.ingress;
  side = StreamSide.server;
  event = none;
}

-- In thousandths.
pub unchanged : (x : ℕ) → x + 0 ≡ x
unchanged x = omega arith

poll_op_lem_example :
    (p : PacketLoss.Polled thousandths counting) × (PacketLoss.poll_op thousandths counting lossy 0
        8 970 5
      ≡ done p)
    × Near (to_index good) (to_index p.after.state)
    × (p.outcome ≡ (
        if thousandths.lt 5 (loss_of thousandths p.after.state)
        then ready (ok 0)
        else ready (ok 8)))
    × (p.after.stream ≡ (if thousandths.lt 5 (loss_of thousandths p.after.state) then 0 else 8))
    × (p.events ≡ (
        if thousandths.lt 5 (loss_of thousandths p.after.state)
        then applied none 0 (FaultEvent.packet_loss Direction.ingress StreamSide.server)
        else []))
poll_op_lem_example =
    poll_op_lem thousandths counting lossy 0 8 970 5 refl
      (λ x y. ap (λ (n : ℕ). ltb y n) (unchanged x))

abbrev pub answer : (l n : ℕ) → Result Cells (Unit {0})
answer l n = if leb n l then ok not_until else err tt

pub in_burst : (n l : ℕ) → n ≤ l → answer l n ≡ ok not_until
in_burst n l le = ground arith

-- A limiter that never has cells: each answer is that they come later.
abbrev pub strict : RateLimiter
strict = record {
  L = ℕ;
  Insufficient = Unit;
  Delay = Unit;
  direct = λ n. n;
  burst = λ l. l;
  check_n = λ l now n. (l, answer l n);
  until_ready = tt;
  poll_delay = λ d l now. (l, false);
  burst-direct = λ n. refl;
  burst-check_n = λ l now n. refl;
  check_n-ok = λ l now n le. (not_until, in_burst n l le);
}

abbrev pub megabytes : ℕ → BandwidthSettings
megabytes rate = record {
  direction = Direction.both;
  side = StreamSide.server;
  bandwidth_rate = rate;
  bandwidth_unit = mbps;
}
