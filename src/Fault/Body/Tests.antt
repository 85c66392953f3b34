-- ===== src/Fault/Body/Tests.antt =====
-- A cursor and a reader of chunks, at which the theorems on bodies are tried out.
use lueur.Prelude.{
  ◌+◌, ◌==◌, if◌then◌else◌, ℕ, zero, suc, ◌%◌, ◌^◌, ◌≡◌, ap, ltb, ◌↔◌, refl, min, false, ◌≤◌, ◌<◌,
  some, List, [], ◌∷◌, ◌++◌, length, ok, err, done, panic, arith,
}
use lueur.Prelude.Fixed.{thousandths}
use lueur.Types.Direction
use lueur.Types.StreamSide
use lueur.Types.BandwidthUnit.{mbps, to_bytes_per_second}
use lueur.Types.LatencyDistribution.{normal, uniform}
use lueur.Event.{TaskProgressEvent, FaultEvent, fault_task, report, on_with_fault}
use lueur.Config.{LatencySettings, PacketLossSettings}
use lueur.Fault.{Outcome, pending, ready}
use lueur.Fault.Body.{
  drop, Cursor, ReaderStream, Item, waits, chunk, end, failed, ReqwestRequest, bytes, limited,
  limit_request,
}
use lueur.Fault.Body.Laws.{Schedule}
use lueur.Fault.Latency
use lueur.Fault.Latency.{applied}
use lueur.Fault.Latency.Delay.{Rand, get_delay}
use lueur.Fault.Latency.Body as LatencyBody
use lueur.Fault.Latency.Body.Laws as LatencyLaws
use lueur.Fault.PacketLoss
use lueur.Fault.PacketLoss.Body as LossBody
use lueur.Fault.PacketLoss.Body.Laws as LossLaws
use lueur.Fault.Tests.{unchanged, clock, strict, megabytes}
use lueur.Fault.Bandwidth.Body as BandwidthBody
use lueur.Fault.Bandwidth.Body.Laws as BandwidthLaws
use lueur.Proxy.Forward.{Response}

-- The bytes that are left are the state.
abbrev memory : Cursor
memory = record {
  stream = record { S = List ℕ; poll = λ len s. (drop len s, ready (ok (min len (length s)))) };
  of_bytes = λ bytes. bytes;
  content = λ s. s;
  content-of_bytes = λ bytes. refl;
  poll-outcome = λ len s. refl;
  poll-content = λ len s. refl;
}

abbrev item : Outcome → Item
item pending = waits
item (ready (ok zero)) = end
item (ready (ok (suc n))) = chunk (suc n)
item (ready (err e)) = failed e

abbrev chunks : ReaderStream
chunks = record {
  item = item;
  item-pending = refl;
  item-end = refl;
  item-chunk = λ n. refl;
  item-failed = λ e. refl;
}

abbrev answer : Response
answer = record { status = 200; headers = []; body = 7 ∷ 8 ∷ 9 ∷ [] }

abbrev slow : LatencySettings ℕ
slow = record {
  distribution = normal;
  direction = Direction.ingress;
  global = false;
  side = StreamSide.server;
  latency_mean = 0;
  latency_stddev = 0;
  latency_shape = 0;
  latency_scale = 0;
  latency_min = 0;
  latency_max = 0;
}

-- Every sample is a microsecond, and a normal distribution is refused where its mean is not 0.
abbrev steady : Rand ℕ
steady = record {
  R = ℕ;
  Normal = Unit {0};
  Pareto = Unit {0};
  Uniform = Unit {0};
  new_normal = λ mean std_dev. if mean == 0 then ok tt else err "MeanTooSmall";
  new_pareto = λ scale shape. ok tt;
  new_uniform = λ low high. if ltb low high then done tt else panic;
  sample_normal = λ d rng. (1, rng + 1);
  sample_pareto = λ d rng. (1, rng + 1);
  sample_uniform = λ d rng. (1, rng + 1);
}

abbrev at : ℕ → LatencyBody.Draws thousandths steady memory clock
at now = record { now = now; len = 2; fuel = 1 }

abbrev nine : List (LatencyBody.Draws thousandths steady memory clock)
nine = at 0 ∷ at 1000 ∷ at 2000 ∷ at 3000 ∷ at 4000 ∷ at 5000 ∷ at 6000 ∷ at 7000 ∷ at 8000 ∷ []

woken :
    Schedule
      (LatencyBody.reader thousandths steady memory clock)
      chunks
      (LatencyLaws.Woken thousandths steady memory clock chunks)
      (LatencyBody.wrap thousandths steady memory clock slow 0 (fault_task 1) (7 ∷ 8 ∷ 9 ∷ []))
      nine
unfolding LatencyBody.wrap LatencyBody.poll Latency.poll_op get_delay
woken =
    let room : 1 ≤ 2 = omega arith in
    (
      (room, tt, _, _, refl),
      (
        (room, refl, _, _, refl),
        (
          (room, tt, _, _, refl),
          (
            (room, refl, _, _, refl),
            (
              (room, tt, _, _, refl),
              (
                (room, refl, _, _, refl),
                ((room, tt, _, _, refl), ((room, refl, _, _, refl), ((room, tt, _, _, refl), tt))),
              ),
            ),
          ),
        ),
      ),
    )

delayed_body-whole_example :
    (events : List (TaskProgressEvent ℕ)) × (LatencyBody.apply_on_response thousandths steady memory
        clock chunks slow 0
        (fault_task 1)
        0
        answer
        nine
      ≡ done (some (ok answer), events))
delayed_body-whole_example =
    LatencyLaws.delayed_body-whole thousandths steady memory clock chunks slow 0 (fault_task 1) 0
      answer nine woken (omega arith)

-- Both bounds have the value that the command line gives them by default.
abbrev even : LatencySettings ℕ
even = record slow { distribution = uniform; latency_min = 20_000; latency_max = 20_000 }

refused_bounds :
    LatencyBody.apply_on_response thousandths steady memory clock chunks even 0
      (fault_task 1)
      0
      answer
      nine
    ≡ panic
unfolding LatencyBody.apply_on_response LatencyBody.wrap LatencyBody.poll Latency.poll_op get_delay
refused_bounds = refl

abbrev lossy : PacketLossSettings
lossy = record { direction = Direction.ingress; side = StreamSide.server }

-- The first read passes, and the second is dropped.
abbrev drawn : List (LossBody.Turn thousandths memory)
drawn =
    record { now = 0; len = 2; rand_val = 970; chance = 500 }
    ∷ record { now = 1; len = 2; rand_val = 970; chance = 5 }
    ∷ record { now = 2; len = 2; rand_val = 970; chance = 5 }
    ∷ record { now = 3; len = 2; rand_val = 970; chance = 5 }
    ∷ []

truncated :
    (events : List (TaskProgressEvent ℕ)) × (LossBody.apply_on_response thousandths memory chunks
        lossy
        (fault_task 1)
        0
        answer
        drawn
      ≡ done (some (ok (record answer { body = 7 ∷ 8 ∷ [] })), events))
unfolding LossBody.apply_on_response PacketLoss.poll_op
truncated = (_, refl)

lossy_body-Cut_example :
    (out : List ℕ) × (events : List (TaskProgressEvent ℕ)) × (LossBody.apply_on_response thousandths
        memory chunks lossy
        (fault_task 1)
        0
        answer
        drawn
      ≡ done (
        some (ok (record answer { body = out })),
        report
              (fault_task 1)
              0
              (on_with_fault (FaultEvent.packet_loss Direction.ingress StreamSide.server))
            ++ events,
      ))
    × LossLaws.Cut thousandths memory chunks (7 ∷ 8 ∷ 9 ∷ []) out events (λ moment.
      applied
        (some (fault_task 1))
        moment
        (FaultEvent.packet_loss Direction.ingress StreamSide.server))
lossy_body-Cut_example =
    LossLaws.lossy_body-Cut thousandths memory chunks lossy (fault_task 1) 0 answer drawn
      (ground arith) (λ x y. ap (λ (n : ℕ). ltb y n) (unchanged x)) (omega arith)

limited_body-panic_iff_example :
    (BandwidthBody.apply_on_response ℕ memory strict chunks (megabytes 0) (fault_task 1) 0 answer []
      ≡ panic)
    ↔ (to_bytes_per_second mbps 0 % 2 ^ 32 ≡ 0)
limited_body-panic_iff_example =
    BandwidthLaws.limited_body-panic_iff ℕ memory strict chunks (megabytes 0) (fault_task 1) 0
      answer []

abbrev four : List (BandwidthBody.Turn ℕ memory strict)
four =
    record { now = 0; len = 2 }
    ∷ record { now = 0; len = 2 }
    ∷ record { now = 0; len = 2 }
    ∷ record { now = 0; len = 2 }
    ∷ []

one_megabyte : (1 ≤ to_bytes_per_second mbps 1) × (to_bytes_per_second mbps 1 < 2 ^ 32)
unfolding to_bytes_per_second
one_megabyte = omega arith

limited_body-whole_example :
    (events : List (TaskProgressEvent ℕ)) × (BandwidthBody.apply_on_response ℕ memory strict chunks
        (megabytes 1)
        (fault_task 1)
        0
        answer
        four
      ≡ done (some (ok answer), events))
limited_body-whole_example =
    BandwidthLaws.limited_body-whole ℕ memory strict chunks (megabytes 1) (fault_task 1) 0 answer
      four one_megabyte.0 one_megabyte.1 (omega arith) (omega arith)

abbrev post : ReqwestRequest (List ℕ)
post = record { body = some (bytes (1 ∷ 2 ∷ [])) }

abbrev posted : ReqwestRequest (List ℕ)
posted = record { body = some (limited (1 ∷ 2 ∷ [])) }

wrapped_once : limit_request some done post ≡ done (ok posted)
unfolding limit_request
wrapped_once = refl
