-- ===== src/Fault/Jitter/Laws.antt =====
-- When a jittered stream waits.
use lueur.Prelude.{◌⊎◌, ◌+◌, ◌*◌, ◌≡◌, Bool, true, false, none, if◌then◌else◌, leb, arith}
use lueur.Prelude.Float.{Float}
use lueur.Types.Direction.{is_ingress}
use lueur.Fault.{Stream, Timer, pending}
use lueur.Fault.Jitter.{
  Turn, JitterStream, should_jitter, generate_jitter, next_sleep, pass, poll_read,
}

module _ (fl : Float) (inner : Stream) (timer : Timer) where
  open fl use {F, lt, floor}
  open inner use {S, poll}
  open timer use {Sleep, sleep, elapsed, elapsed-sleep}

  -- A read that is polled while no sleep is pending goes straight to the wrapped stream, whatever is
  -- drawn: the jitter that it draws delays only what is read after it. So does every read of a
  -- stream that is jittered on egress alone.
  pub read_not_delayed :
      (st : JitterStream fl inner timer) (t : Turn fl inner timer)
      → (st.read_sleep ≡ none) ⊎ (is_ingress st.settings.direction ≡ false)
      → ((poll_read fl inner timer st t).1 ≡ (poll t.len st.stream).1)
        × ((poll_read fl inner timer st t).0.stream ≡ (poll t.len st.stream).0)
  unfolding poll_read next_sleep pass
  read_not_delayed st t e = ground arith

  abbrev pub after_read :
      JitterStream fl inner timer → Turn fl inner timer → JitterStream fl inner timer
  after_read st t = (poll_read fl inner timer st t).0

  -- Whether the jitter that `t` draws is over when `u` is polled.
  abbrev pub is_over : (t u : Turn fl inner timer) → Bool
  is_over t u = leb (t.now + floor t.millis * 1_000_000) u.now

  -- A read that draws jitter is followed by one that waits: until the drawn whole milliseconds have
  -- passed it is pending, and the stream and the sleep stay as they are; from then on it goes
  -- through, draws nothing, and leaves no sleep.
  pub next_read_delayed :
      (st : JitterStream fl inner timer) (t u : Turn fl inner timer)
      → is_ingress st.settings.direction ≡ true
      → st.read_sleep ≡ none
      → lt t.chance st.settings.jitter_frequency ≡ true
      → ((poll_read fl inner timer (after_read st t) u).1
          ≡ (if is_over t u then (poll u.len (after_read st t).stream).1 else pending))
        × ((after_read (after_read st t) u).stream ≡ (
            if is_over t u
            then (poll u.len (after_read st t).stream).0
            else (after_read st t).stream))
        × ((after_read (after_read st t) u).read_sleep
            ≡ (if is_over t u then none else (after_read st t).read_sleep))
  unfolding poll_read next_sleep pass should_jitter generate_jitter
  next_read_delayed st t u i e c =
      ground (arith, elapsed-sleep t.now (floor t.millis * 1_000_000) u.now)
