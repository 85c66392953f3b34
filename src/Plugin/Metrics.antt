-- ===== src/Plugin/Metrics.antt =====
-- The stream wrapper of lueur-cli/src/plugin/metrics.rs, which reports the time to the first byte.
pub mod Laws
pub mod Body
mod Tests
use lueur.Prelude.{ℕ, Bool, true, false, List, [], ◌∷◌, ◌++◌, if◌then◌else◌}
use lueur.Event.{Report, on_first_byte}
use lueur.Fault.{Stream, Outcome}

module _ (s : Stream) where
  open s use {S, poll}

  pub record WrapperStream : Type 0 where
    pub stream : S
    pub ttfb_event_sent : Bool

  unfoldable pub new : S → WrapperStream
  new stream = record { stream = stream; ttfb_event_sent = false }

  first_byte : {F : Type 0} → Bool → List (Report F)
  first_byte ttfb_event_sent = if ttfb_event_sent then [] else on_first_byte ∷ []

  pub poll_read :
      {F : Type 0} → WrapperStream → (len : ℕ) → WrapperStream × List (Report F) × Outcome
  unfolding first_byte
  poll_read this len =
      let polled = poll len this.stream in
      (
        record { stream = polled.0; ttfb_event_sent = true },
        first_byte this.ttfb_event_sent,
        polled.1,
      )

  pub poll_write : WrapperStream → (len : ℕ) → WrapperStream × Outcome
  poll_write this len =
      let polled = poll len this.stream in (record this { stream = polled.0 }, polled.1)

  -- An operation, with the room or the length of its buffer.
  pub data Op : Type 0 where
    read write : (len : ℕ) → Op

  -- What a sequence of operations reports, and their outcomes.
  unfoldable pub run :
      {F : Type 0} → WrapperStream → List Op → WrapperStream × List (Report F) × List Outcome
  unfolding poll_read poll_write
  run this [] = (this, [], [])
  run this (read len ∷ ops) =
      let (this', reports, outcome) = poll_read this len in
      let (last, later, outcomes) = run this' ops in (last, reports ++ later, outcome ∷ outcomes)
  run this (write len ∷ ops) =
      let (this', outcome) = poll_write this len in
      let (last, later, outcomes) = run this' ops in (last, later, outcome ∷ outcomes)
