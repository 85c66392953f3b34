-- ===== src/Fault.antt =====
-- lueur-cli/src/fault: what the stream wrappers share. A stream is polled for one operation at a
-- time, a read or a write, with the size of the buffer; `ready (ok n)` says that `n` bytes were
-- moved. Times are counted in nanoseconds.
pub mod Body
pub mod Inject
pub mod Latency
pub mod Jitter
pub mod PacketLoss
pub mod Bandwidth
pub mod HttpError
pub mod Dns
mod Tests
use lueur.Prelude.{String, ℕ, ◌+◌, ◌≡◌, Bool, Result, leb}

pub data Poll (A : Type 0) : Type 0 where
  pending : Poll A
  ready : A → Poll A

abbrev pub Outcome : Type 0
Outcome = Poll (Result ℕ String)

-- The wrapped stream: `poll_read` with the room in the buffer, or `poll_write` with its length.
pub record Stream : Type 1 where
  pub S : Type 0
  pub poll : (len : ℕ) → S → S × Outcome

-- `tokio::time::sleep`: a sleep is over from the moment at which its duration has passed.
pub record Timer : Type 1 where
  pub Sleep : Type 0
  pub sleep : (now delay : ℕ) → Sleep
  pub elapsed : Sleep → (now : ℕ) → Bool
  pub elapsed-sleep :
      (start delay now : ℕ) → elapsed (sleep start delay) now ≡ leb (start + delay) now
