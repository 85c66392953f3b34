-- ===== src/Scenario/Request/Timing.antt =====
-- `TimingStream` of lueur-cli/src/scenario.rs, and the loop of `execute_request` that reads it. The
-- stream below is a list of what its polls return, with the times of the polls.
use lueur.Prelude.{ℕ, ◌≡◌, refl, Option, none, some, List, [], ◌∷◌, ◌++◌, Result, ok, err}
use lueur.Prelude.{String}
use lueur.Scenario.Request.{receive}

pub data Poll : Type 0 where
  pending : Poll
  item : Result (List ℕ) String → Poll
  finished : Poll

pub record TimingStream : Type 0 where
  pub start : ℕ
  pub first_byte_time : Option ℕ

new : (start : ℕ) → TimingStream
new start = record { start = start; first_byte_time = none }

-- The first time that is noted stays.
noted : Option ℕ → (now : ℕ) → Option ℕ
noted none now = some now
noted (some before) now = some before

poll_next : (now : ℕ) → Poll → TimingStream → TimingStream × Poll
unfolding noted
poll_next now (item (ok bytes)) s =
    (record s { first_byte_time = noted s.first_byte_time now }, item (ok bytes))
poll_next now other s = (s, other)

-- The stream, the buffer, and the time at which the loop ends, if it does.
record Read : Type 0 where
  stream : TimingStream
  buffer : List ℕ
  ended : Option ℕ

-- `while let Some(chunk) = timing_stream.next().await`; an error ends it.
read : List (ℕ × Poll) → TimingStream → List ℕ → Read
unfolding poll_next
read [] s buffer = record { stream = s; buffer = buffer; ended = none }
read ((now, pending) ∷ polls) s buffer = read polls (poll_next now pending s).0 buffer
read ((now, item (ok bytes)) ∷ polls) s buffer =
    read polls (poll_next now (item (ok bytes)) s).0 (buffer ++ bytes)
read ((now, item (err e)) ∷ polls) s buffer = record {
  stream = (poll_next now (item (err e)) s).0;
  buffer = buffer;
  ended = some now;
}
read ((now, finished) ∷ polls) s buffer = record {
  stream = (poll_next now finished s).0;
  buffer = buffer;
  ended = some now;
}

-- What the stream below gives up to its end, without the times.
abbrev chunks : List (ℕ × Poll) → List (Result (List ℕ) String)
chunks [] = []
chunks ((now, pending) ∷ polls) = chunks polls
chunks ((now, item r) ∷ polls) = r ∷ chunks polls
chunks ((now, finished) ∷ polls) = []

-- When the first bytes come, unless an error or the end comes first.
abbrev first_bytes : List (ℕ × Poll) → Option ℕ
first_bytes [] = none
first_bytes ((now, pending) ∷ polls) = first_bytes polls
first_bytes ((now, item (ok bytes)) ∷ polls) = some now
first_bytes ((now, item (err e)) ∷ polls) = none
first_bytes ((now, finished) ∷ polls) = none

read-buffer :
    (polls : List (ℕ × Poll)) (s : TimingStream) (buffer : List ℕ)
    → (read polls s buffer).buffer ≡ receive (chunks polls) buffer
unfolding read poll_next receive
read-buffer [] s buffer = refl
read-buffer ((now, pending) ∷ polls) s buffer = read-buffer polls s buffer
read-buffer ((now, item (ok bytes)) ∷ polls) s buffer = read-buffer polls _ (buffer ++ bytes)
read-buffer ((now, item (err e)) ∷ polls) s buffer = refl
read-buffer ((now, finished) ∷ polls) s buffer = refl

read-noted :
    (polls : List (ℕ × Poll)) (start before : ℕ) (buffer : List ℕ)
    → (read polls
        (record { start = start; first_byte_time = some before })
        buffer).stream.first_byte_time
      ≡ some before
unfolding read poll_next noted
read-noted [] start before buffer = refl
read-noted ((now, pending) ∷ polls) start before buffer = read-noted polls start before buffer
read-noted ((now, item (ok bytes)) ∷ polls) start before buffer =
    read-noted polls start before (buffer ++ bytes)
read-noted ((now, item (err e)) ∷ polls) start before buffer = refl
read-noted ((now, finished) ∷ polls) start before buffer = refl

-- The stream notes when the first bytes came, however many follow.
read-first_bytes :
    (polls : List (ℕ × Poll)) (start : ℕ) (buffer : List ℕ)
    → (read polls (new start) buffer).stream.first_byte_time ≡ first_bytes polls
unfolding read poll_next noted new
read-first_bytes [] start buffer = refl
read-first_bytes ((now, pending) ∷ polls) start buffer = read-first_bytes polls start buffer
read-first_bytes ((now, item (ok bytes)) ∷ polls) start buffer =
    read-noted polls start now (buffer ++ bytes)
read-first_bytes ((now, item (err e)) ∷ polls) start buffer = refl
read-first_bytes ((now, finished) ∷ polls) start buffer = refl
