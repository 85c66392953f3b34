-- ===== src/Fault/Jitter.antt =====
-- lueur-cli/src/fault/jitter.rs: the stream that sleeps now and then.
pub mod Laws
use lueur.Prelude.{ℕ, ◌*◌, Bool, true, false, Option, none, some, if◌then◌else◌}
use lueur.Prelude.Float.{Float}
use lueur.Types.Direction.{Direction, is_ingress, is_egress}
use lueur.Config.{JitterSettings}
use lueur.Fault.{Stream, Timer, Outcome, Poll, pending}

module _ (fl : Float) (inner : Stream) (timer : Timer) where
  open fl use {F, lt, floor}
  open inner use {S, poll}
  open timer use {Sleep, sleep, elapsed}

  -- What a poll depends on besides the state: the time, the size of the buffer, the number that
  -- `gen` draws from [0, 1), and the number that `gen_range` draws up to the amplitude.
  pub record Turn : Type 0 where
    pub now : ℕ
    pub len : ℕ
    pub chance : F
    pub millis : F

  pub record JitterStream : Type 0 where
    pub stream : S
    pub settings : JitterSettings F
    pub read_sleep : Option Sleep
    pub write_sleep : Option Sleep

  should_jitter : JitterSettings F → F → Bool
  should_jitter settings chance = lt chance settings.jitter_frequency

  -- In nanoseconds.
  generate_jitter : F → ℕ
  generate_jitter millis = floor millis * 1_000_000

  -- The sleep of one direction: `none` says that the poll returns `Pending`.
  next_sleep : JitterSettings F → Option Sleep → Turn → Option (Option Sleep)
  unfolding should_jitter generate_jitter
  next_sleep settings (some s) turn = if elapsed s turn.now then some none else none
  next_sleep settings none turn =
      if should_jitter settings turn.chance
      then some (some (sleep turn.now (generate_jitter turn.millis)))
      else some none

  pass : JitterStream → (len : ℕ) → JitterStream × Outcome
  pass st len =
      let (stream, outcome) = poll len st.stream in (record st { stream = stream }, outcome)

  pub poll_read : JitterStream → Turn → JitterStream × Outcome
  unfolding next_sleep pass
  poll_read st turn =
      if is_ingress st.settings.direction
      then elim (next_sleep st.settings st.read_sleep turn) [
        | none ↦ (st, pending)
        | some s ↦ pass (record st { read_sleep = s }) turn.len
      ]
      else pass st turn.len

  unfoldable pub poll_write : JitterStream → Turn → JitterStream × Outcome
  unfolding next_sleep pass
  poll_write st turn =
      if is_egress st.settings.direction
      then elim (next_sleep st.settings st.write_sleep turn) [
        | none ↦ (st, pending)
        | some s ↦ pass (record st { write_sleep = s }) turn.len
      ]
      else pass st turn.len
