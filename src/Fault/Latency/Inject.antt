-- ===== src/Fault/Latency/Inject.antt =====
-- `LatencyInjector::inject` of lueur-cli/src/fault/latency.rs. The delay of a turn is one that
-- `get_delay` has returned: a turn in which it panics is not among the turns.
use lueur.Prelude.{ℕ, some, List, [], done, if◌then◌else◌, none, refl}
use lueur.Types.Direction.{ingress, egress}
use lueur.Types.StreamSide.{StreamSide, same_side}
use lueur.Event.{TaskProgressEvent, ProxyTaskEvent, FaultEvent, report, on_with_fault}
use lueur.Config.{LatencySettings}
use lueur.Fault.{Stream, Timer}
use lueur.Fault.Inject.{Splitting, Layer, limited, Limited, wrap_halves}
use lueur.Fault.Latency.{Turn, LatencyStream, poll_op, new}

module _ (F : Type 0) (timer : Timer) where
  abbrev pub layer : (inner : Stream) → Layer F inner
  layer inner = record {
    W = LatencyStream F inner timer;
    Turn = Turn;
    room = λ t. t.len;
    poll = λ w t. let p = poll_op F inner timer w t in done (p.after, p.outcome, p.events);
    stream = λ w. w.stream;
    with_stream = λ s w. record w { stream = s };
    stream-with_stream = λ s w. refl;
  }

  module _ (sp : Splitting) where
    open sp use {Whole, Reader, Writer}

    -- The stream as it was given, or with its halves.
    pub data Injected : Type 0 where
      same : Whole → Injected
      halves : Limited sp (layer Reader) (layer Writer) → Injected

    unfoldable pub inject :
        LatencySettings F
        → ProxyTaskEvent
        → (now : ℕ) → Whole
        → StreamSide
        → Injected × List (TaskProgressEvent F)
    unfolding new wrap_halves
    inject settings event now stream side =
        if same_side side settings.side
        then (
          halves (
              wrap_halves sp (layer Reader) (layer Writer) settings.direction
                (λ half. limited (new F Reader timer half ingress settings (some event)))
                (λ half. limited (new F Writer timer half egress settings (some event))) stream),
          report event now
              (on_with_fault (FaultEvent.latency settings.direction settings.side none)),
        )
        else (same stream, [])
