-- ===== src/Fault/Bandwidth/Inject.antt =====
-- `BandwidthLimitFaultInjector::inject` of lueur-cli/src/fault/bandwidth.rs. The side is not looked
-- at. A half that `new` refuses stays as it is.
pub mod Laws
use lueur.Prelude.{ℕ, Option, none, some, List, done, refl}
use lueur.Event.{TaskProgressEvent, ProxyTaskEvent, FaultEvent, report, on_with_fault}
use lueur.Config.{BandwidthSettings}
use lueur.Fault.{Stream}
use lueur.Fault.Inject.{Splitting, Layer, Half, plain, limited, Limited, wrap_halves}
use lueur.Fault.Bandwidth.{RateLimiter, BandwidthStream, Polled, poll_read, poll_write, new}

module _ (F : Type 0) (limiters : RateLimiter) where
  -- The time, and the room in the buffer or its length.
  pub record Turn : Type 0 where
    pub now : ℕ
    pub len : ℕ

  abbrev layer :
      (inner : Stream)
      → (BandwidthStream F inner limiters → (now len : ℕ) → Polled F inner limiters)
      → Layer F inner
  layer inner poll_op = record {
    W = BandwidthStream F inner limiters;
    Turn = Turn;
    room = λ t. t.len;
    poll = λ w t. let p = poll_op w t.now t.len in done (p.after, p.outcome, p.events);
    stream = λ w. w.stream;
    with_stream = λ s w. record w { stream = s };
    stream-with_stream = λ s w. refl;
  }

  abbrev pub reads : (inner : Stream) → Layer F inner
  reads inner = layer inner (poll_read F inner limiters)

  abbrev pub writes : (inner : Stream) → Layer F inner
  writes inner = layer inner (poll_write F inner limiters)

  -- `Ok` is the wrapper, and `Err` gives the half back.
  abbrev or_plain : {S W : Type 0} → S → Option W → Half S W
  or_plain half none = plain half
  or_plain half (some w) = limited w

  module _ (sp : Splitting) where
    open sp use {Whole, Reader, Writer}

    unfoldable pub inject :
        BandwidthSettings
        → ProxyTaskEvent
        → (now : ℕ) → Whole
        → Limited sp (reads Reader) (writes Writer) × List (TaskProgressEvent F)
    unfolding new wrap_halves
    inject settings event now stream = (
      wrap_halves sp (reads Reader) (writes Writer) settings.direction
          (λ half. or_plain half (new F Reader limiters half settings (some event)))
          (λ half. or_plain half (new F Writer limiters half settings (some event))) stream,
      report event now (on_with_fault (FaultEvent.bandwidth settings.direction settings.side none)),
    )
