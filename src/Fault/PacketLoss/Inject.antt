-- ===== src/Fault/PacketLoss/Inject.antt =====
-- `PacketLossInjector::inject` of lueur-cli/src/fault/packet_loss.rs. The side is not looked at.
use lueur.Prelude.{ℕ, some, List, done, ◌>>=◌, refl}
use lueur.Prelude.Float.{Float}
use lueur.Types.Direction.{ingress, egress}
use lueur.Event.{TaskProgressEvent, ProxyTaskEvent, FaultEvent, report, on_with_fault}
use lueur.Config.{PacketLossSettings}
use lueur.Fault.{Stream}
use lueur.Fault.Inject.{Splitting, Layer, limited, Limited, wrap_halves}
use lueur.Fault.PacketLoss.{PacketLossStream, poll_op, new}

module _ (fl : Float) where
  open fl use {F}

  -- The time, the room in the buffer, and the two numbers drawn.
  pub record Turn : Type 0 where
    pub now : ℕ
    pub len : ℕ
    pub rand_val : F
    pub chance : F

  abbrev pub layer : (inner : Stream) → Layer F inner
  layer inner = record {
    W = PacketLossStream fl inner;
    Turn = Turn;
    room = λ t. t.len;
    poll = λ w t. poll_op fl inner w t.now t.len t.rand_val t.chance >>= λ p.
        done (p.after, p.outcome, p.events);
    stream = λ w. w.stream;
    with_stream = λ s w. record w { stream = s };
    stream-with_stream = λ s w. refl;
  }

  module _ (sp : Splitting) where
    open sp use {Whole, Reader, Writer}

    unfoldable pub inject :
        PacketLossSettings
        → ProxyTaskEvent
        → (now : ℕ) → Whole
        → Limited sp (layer Reader) (layer Writer) × List (TaskProgressEvent F)
    unfolding new wrap_halves
    inject settings event now stream = (
      wrap_halves sp (layer Reader) (layer Writer) settings.direction
          (λ half. limited (new fl Reader half ingress settings.side (some event)))
          (λ half. limited (new fl Writer half egress settings.side (some event))) stream,
      report event now (on_with_fault (FaultEvent.packet_loss settings.direction settings.side)),
    )
