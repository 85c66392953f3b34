-- ===== src/Fault/Latency/Laws.antt =====
-- What the latency wrapper does over a sequence of polls.
use lueur.Prelude.{
  ℕ, ◌+◌, ◌≤◌, ◌<◌, ◌≡◌, refl, true, false, none, some, List, [], ◌∷◌, length, arith, All,
}
use lueur.Fault.{Stream, Timer, pending}
use lueur.Fault.Latency.{Turn, LatencyStream, pass, await, delayed, poll_op}

module _ (F : Type 0) (inner : Stream) (timer : Timer) where
  open inner use {S, poll}
  open timer use {Sleep, sleep, elapsed, elapsed-sleep}

  abbrev pub State : Type 0
  State = LatencyStream F inner timer

  -- The state after a sequence of polls, and all that they reported.
  abbrev pub after_all : State → List Turn → State
  after_all st [] = st
  after_all st (t ∷ ts) = after_all (poll_op F inner timer st t).after ts

  abbrev pub fault_count : State → List Turn → ℕ
  fault_count st [] = 0
  fault_count st (t ∷ ts) =
      length (poll_op F inner timer st t).events + fault_count (poll_op F inner timer st t).after ts

  -- The poll goes straight to the wrapped stream.
  abbrev pub Passes : State → Turn → Type 0
  Passes st t =
      ((poll_op F inner timer st t).outcome ≡ (poll t.len st.stream).1)
      × ((poll_op F inner timer st t).after.stream ≡ (poll t.len st.stream).0)
      × ((poll_op F inner timer st t).events ≡ [])

  -- The poll waits: nothing reaches the wrapped stream.
  abbrev pub Waits : State → Turn → Type 0
  Waits st t =
      ((poll_op F inner timer st t).outcome ≡ pending)
      × ((poll_op F inner timer st t).after.stream ≡ st.stream)

  -- The state waits until `until`.
  abbrev pub Sleeping : State → (start delay : ℕ) → Type 0
  Sleeping st start delay = (st.op_sleep ≡ some (sleep start delay)) × (st.global ≡ false)

  Sleeping-poll_op :
      (st : State) (start delay : ℕ) (t : Turn)
      → Sleeping st start delay
      → t.now < start + delay
      → Waits st t
        × Sleeping (poll_op F inner timer st t).after start delay
        × ((poll_op F inner timer st t).events ≡ [])
  unfolding poll_op delayed await pass
  Sleeping-poll_op st start delay t (e, g) lt = ground (arith, elapsed-sleep start delay t.now)

  woken_poll :
      (st : State) (start delay : ℕ) (t : Turn)
      → Sleeping st start delay
      → start + delay ≤ t.now
      → Passes st t × ((poll_op F inner timer st t).after.op_sleep ≡ none)
  unfolding poll_op delayed await pass
  woken_poll st start delay t (e, g) le = ground (arith, elapsed-sleep start delay t.now)

  first_poll :
      (st : State) (t : Turn)
      → st.global ≡ false
      → st.op_sleep ≡ none
      → t.now < t.now + t.delay
      → Waits st t × Sleeping (poll_op F inner timer st t).after t.now t.delay
  unfolding poll_op delayed await pass
  first_poll st t g e lt = ground (arith, elapsed-sleep t.now t.delay t.now)

  Sleeping-after_turns :
      (st : State) (start delay : ℕ) (ts : List Turn)
      → Sleeping st start delay
      → All (λ (t : Turn). t.now < start + delay) ts
      → Sleeping (after_all st ts) start delay
        × ((after_all st ts).stream ≡ st.stream)
        × (fault_count st ts ≡ 0)
  Sleeping-after_turns st start delay [] s h = (s, refl, refl)
  Sleeping-after_turns st start delay (t ∷ ts) s (lt, h) =
      let (waits, s', quiet) = Sleeping-poll_op st start delay t s lt in
      let (s'', same, none') =
        Sleeping-after_turns (poll_op F inner timer st t).after start delay ts s' h in
      (s'', ground (arith, waits, same), ground (arith, quiet, none'))

  -- Outside the global mode, an operation that is polled while no sleep is pending draws a delay.
  -- However often it is polled before the delay is over, nothing reaches the wrapped stream and no
  -- further fault is reported; the first poll after that goes straight through, and leaves no sleep.
  pub delayed_until :
      (st : State) (t : Turn) (ts : List Turn) (u : Turn)
      → st.global ≡ false
      → st.op_sleep ≡ none
      → 1 ≤ t.delay
      → All (λ (x : Turn). x.now < t.now + t.delay) ts
      → t.now + t.delay ≤ u.now
      → ((after_all st (t ∷ ts)).stream ≡ st.stream)
        × (fault_count st (t ∷ ts) ≡ length (poll_op F inner timer st t).events)
        × Passes (after_all st (t ∷ ts)) u
        × ((poll_op F inner timer (after_all st (t ∷ ts)) u).after.op_sleep ≡ none)
  delayed_until st t ts u g e pos early late =
      let (waits, s) = first_poll st t g e (omega arith) in
      let (s', same, quiet) =
        Sleeping-after_turns (poll_op F inner timer st t).after t.now t.delay ts s early in
      let woken = woken_poll (after_all st (t ∷ ts)) t.now t.delay u s' late in
      (ground (arith, same, waits), ground (arith, quiet), woken.0, woken.1)

  -- In the global mode, once a fault was applied.
  abbrev Applied : State → Type 0
  Applied st = (st.global ≡ true) × (st.applied_count ≡ 1)

  Applied-poll_op :
      (st : State) (t : Turn)
      → Applied st
      → Passes st t × Applied (poll_op F inner timer st t).after
  unfolding poll_op pass
  Applied-poll_op st t (g, c) = ground arith

  Applied-after_turns :
      (st : State) (ts : List Turn)
      → Applied st
      → Applied (after_all st ts) × (fault_count st ts ≡ 0)
  Applied-after_turns st [] a = (a, refl)
  Applied-after_turns st (t ∷ ts) a =
      let (passes, a') = Applied-poll_op st t a in
      let (a'', quiet) = Applied-after_turns (poll_op F inner timer st t).after ts a' in
      (a'', ground (arith, passes, quiet))

  first_global :
      (st : State) (t : Turn)
      → st.global ≡ true
      → st.applied_count ≡ 0
      → st.op_sleep ≡ none
      → Applied (poll_op F inner timer st t).after
  unfolding poll_op delayed await pass
  first_global st t g c e = ground arith

  -- In the global mode only the first poll can wait: every later one, whatever the time, goes
  -- straight to the wrapped stream, though the delay that was reported is not over; and no later
  -- poll reports a fault.
  pub global_only_first_waits :
      (st : State) (t : Turn) (ts : List Turn) (u : Turn)
      → st.global ≡ true
      → st.applied_count ≡ 0
      → st.op_sleep ≡ none
      → Passes (after_all st (t ∷ ts)) u
        × (fault_count st (t ∷ ts) ≡ length (poll_op F inner timer st t).events)
  global_only_first_waits st t ts u g c e =
      let a = first_global st t g c e in
      let (a', quiet) = Applied-after_turns (poll_op F inner timer st t).after ts a in
      ((Applied-poll_op (after_all st (t ∷ ts)) u a').0, ground (arith, quiet))
