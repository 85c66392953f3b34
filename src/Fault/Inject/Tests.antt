-- ===== src/Fault/Inject/Tests.antt =====
-- A stream that counts what each half moves, into which faults are injected.
use lueur.Prelude.{ℕ, ◌^◌, ◌<◌, ◌≡◌, false, ok, none, List, [], ◌∷◌, done, arith}
use lueur.Types.Direction
use lueur.Types.StreamSide
use lueur.Types.BandwidthUnit.{mbps, to_bytes_per_second}
use lueur.Event.{TaskProgressEvent, fault_task}
use lueur.Fault.{ready}
use lueur.Fault.Tests.{counting, clock, strict, megabytes}
use lueur.Fault.Latency
use lueur.Fault.Latency.Inject as LatencyInject
use lueur.Fault.Bandwidth.Inject as BandwidthInject
use lueur.Fault.Bandwidth.Inject.Laws.{inject-not_limited}
use lueur.Fault.Inject.{
  Splitting, Layer, Half, plain, limited, Limited, under, poll_flush, poll_shutdown, wrap_halves,
}
use lueur.Fault.Inject.Laws.{half_ran, stream_outcomes, reads, writes, wrap_halves_lem}

abbrev sockets : Splitting
sockets = record {
  Whole = ℕ × ℕ;
  Reader = counting;
  Writer = counting;
  split = λ stream. stream;
  flush = λ s. (s, ready (ok tt));
  shutdown = λ s. (s, ready (ok tt));
}

abbrev layer : Layer ℕ counting
layer = LatencyInject.layer ℕ clock counting

abbrev at : ℕ → Latency.Turn
at now = record { now = now; len = 8; delay = 100 }

abbrev halves : Limited sockets layer layer
halves = record { reader = plain 3; writer = plain 4 }

abbrev delaying : ℕ → Half ℕ (Latency.LatencyStream ℕ counting clock)
delaying s = limited (record {
  stream = s;
  global = false;
  direction = Direction.ingress;
  side = StreamSide.server;
  event = none;
  op_sleep = none;
  applied_count = 0;
})

-- Only the reads are delayed.
wrap_halves_lem_example :
    (reads sockets layer layer
        (wrap_halves sockets layer layer Direction.ingress delaying delaying (3, 4))
        (at 0 ∷ [])
      ≡ half_ran counting layer (delaying 3) (at 0 ∷ []))
    × (writes sockets layer layer
          (wrap_halves sockets layer layer Direction.ingress delaying delaying (3, 4))
          (at 0 ∷ [])
        ≡ done (stream_outcomes counting layer 4 (at 0 ∷ []), []))
    × ((poll_flush sockets layer layer halves).1 ≡ ready (ok tt))
    × (under counting layer (poll_flush sockets layer layer halves).0.writer
        ≡ under counting layer halves.writer)
    × ((poll_shutdown sockets layer layer halves).1 ≡ ready (ok tt))
    × (under counting layer (poll_shutdown sockets layer layer halves).0.writer
        ≡ under counting layer halves.writer)
unfolding Direction.is_ingress Direction.is_egress
wrap_halves_lem_example =
    wrap_halves_lem sockets layer layer Direction.ingress delaying delaying (3, 4) (at 0 ∷ [])
      (at 0 ∷ []) halves

abbrev two_writes : List (BandwidthInject.Turn ℕ strict)
two_writes = record { now = 0; len = 9_000_000 } ∷ record { now = 0; len = 5 } ∷ []

one_megabyte : to_bytes_per_second mbps 1 < 2 ^ 32
unfolding to_bytes_per_second
one_megabyte = omega arith

inject-not_limited_example :
    (events : List (TaskProgressEvent ℕ)) × (writes sockets
        (BandwidthInject.reads ℕ strict counting)
        (BandwidthInject.writes ℕ strict counting)
        (BandwidthInject.inject ℕ strict sockets (megabytes 1) (fault_task 1) 0 (0, 0)).0
        two_writes
      ≡ done (
        stream_outcomes counting (BandwidthInject.writes ℕ strict counting) 0 two_writes,
        events,
      ))
inject-not_limited_example =
    inject-not_limited ℕ strict sockets (megabytes 1) (fault_task 1) 0 (0, 0) two_writes
      one_megabyte (omega arith)
