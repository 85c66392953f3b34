-- ===== src/Fault/Latency/Body/Laws.antt =====
-- A delayed body arrives whole.
use mathlib.Core.Path.{subst}
use lueur.Prelude.{
  ℕ, ◌+◌, ◌*◌, ◌==◌, ◌≤◌, ◌<◌, ◌≡◌, refl, ap, ◌∙◌, ◌⊎◌, inl, inr, true, Option, none, some, List,
  [], ◌++◌, length, ok, done, arith, ◌&&◌, Bool-cases, Option-cases,
}
use lueur.Types.StreamSide.{server, same_side}
use lueur.Types.Direction.{ingress}
use lueur.Event.{TaskProgressEvent, ProxyTaskEvent, FaultEvent, report, on_with_fault}
use lueur.Config.{LatencySettings}
use lueur.Fault.{Timer, pending}
use lueur.Fault.Body.{Cursor, ReaderStream, limit_response}
use lueur.Fault.Body.Laws.{length-drop, limit_response_lem, Delivers, Schedule, drain-whole}
use lueur.Prelude.Float.{Float}
use lueur.Fault.Latency.Delay.{Rand, get_delay}
use lueur.Fault.Latency.{Turn, LatencyStream, pass, await, delayed, poll_op}
use lueur.Fault.Latency.Body.{
  Draws, Limited, draws, with_delay, poll, reader, wrap, apply_on_response,
}
use lueur.Proxy.Forward.{Response}

module _ (fl : Float) (rand : Rand fl.F) (cursor : Cursor) (timer : Timer) (rs : ReaderStream) where
  open fl use {F}
  open rand use {R}
  open cursor use {stream, of_bytes, content, content-of_bytes, poll-outcome, poll-content}
  open timer use {Sleep, sleep, elapsed}

  -- The sleep that is pending is over.
  abbrev Over : Option Sleep → (now : ℕ) → Type 0
  Over none now = Unit
  Over (some s) now = elapsed s now ≡ true

  -- The task is not polled before the timer wakes it, there is room for a byte, and a delay that is
  -- drawn then is found: the distribution takes its parameters, and the loops end.
  abbrev pub Woken : Limited fl rand cursor timer → Draws fl rand cursor timer → Type 0
  Woken w t =
      (1 ≤ t.len)
      × Over w.under.op_sleep t.now
      × (delay : ℕ) × (rng : R) × (get_delay fl rand w.settings t.fuel w.rng
          ≡ done (some (delay, rng)))

  abbrev rounds : Option Sleep → ℕ
  rounds none = 2
  rounds (some s) = 1

  -- A bound of the polls that are left.
  abbrev left : Limited fl rand cursor timer → ℕ
  left w = 2 * length (content w.under.stream) + rounds w.under.op_sleep

  abbrev Any : Limited fl rand cursor timer → Type 0
  Any w = Unit

  -- A poll waits, which it does once, or goes to the wrapped stream.
  turned :
      (w : LatencyStream F stream timer) (t : Turn)
      → Over w.op_sleep t.now
      → ((poll_op F stream timer w t).outcome ≡ pending)
          × ((poll_op F stream timer w t).after.stream ≡ w.stream)
          × (rounds (poll_op F stream timer w t).after.op_sleep < rounds w.op_sleep)
        ⊎ ((poll_op F stream timer w t).outcome ≡ (stream.poll t.len w.stream).1)
          × ((poll_op F stream timer w t).after.stream ≡ (stream.poll t.len w.stream).0)
  unfolding poll_op delayed await pass
  turned w t over = elim (Bool-cases (w.global && (w.applied_count == 1))) [
    | inl global ↦ inr (ground arith)
    | inr local ↦ elim (Option-cases w.op_sleep) [
      | inr (s, asleep) ↦
          let woken : elapsed s t.now ≡ true = subst (λ o. Over o t.now) asleep over in
          inr (ground arith)
      | inl awake ↦ elim (Bool-cases (elapsed (sleep t.now t.delay) t.now)) [
        | inl at_once ↦ inr (ground arith)
        | inr later ↦ inl (ground arith)
      ]
    ]
  ]

  rounds_bounds : (o : Option Sleep) → (1 ≤ rounds o) × (rounds o ≤ 2)
  rounds_bounds none = omega arith
  rounds_bounds (some s) = omega arith

  -- A poll goes on with some delay, which is drawn if it is needed.
  polled :
      (w : Limited fl rand cursor timer) (t : Draws fl rand cursor timer)
      → Woken w t
      → (delay : ℕ) × (rng : R) × ((reader fl rand cursor timer).poll w t
          ≡ done (with_delay fl rand cursor timer w t delay rng))
  unfolding poll
  polled w t (pos, over, delay, rng, drawn) = elim (Bool-cases (draws fl rand cursor timer w)) [
    | inl needed ↦ (delay, rng, rw (needed, drawn) refl)
    | inr not_needed ↦ (0, w.rng, rw not_needed refl)
  ]

  step :
      (w : Limited fl rand cursor timer) (t : Draws fl rand cursor timer)
      → Any w
      → Woken w t
      → Delivers (reader fl rand cursor timer) rs Any Woken left w t
  unfolding with_delay
  step w t any (pos, over, some_delay, some_rng, found) =
      let (delay, rng, goes_on) = polled w t (pos, over, some_delay, some_rng, found) in
      let turn : Turn = record { now = t.now; len = t.len; delay = delay } in
      let p = poll_op F stream timer w.under turn in
      (
        record w { under = p.after; rng = rng },
        p.outcome,
        p.events,
        goes_on,
        tt,
        elim (turned w.under turn over) [
          | inl (waits, same, less) ↦
              let kept = ap content same in inl (waits, kept, omega (arith, ap length kept))
          | inr (passed, moved) ↦
              let cut = ap content moved ∙ poll-content t.len w.under.stream in
              inr (
                (passed ∙ poll-outcome t.len w.under.stream, cut, pos),
                λ some_left. omega (
                  arith,
                  ap length cut,
                  length-drop t.len (content w.under.stream) pos some_left,
                  rounds_bounds p.after.op_sleep,
                  rounds_bounds w.under.op_sleep,
                ),
              )
        ],
      )

  -- A response whose body is delayed arrives whole: if the task is polled only once the sleep that
  -- it waits for is over, with room for a byte, and if at each turn `get_delay` would return a
  -- delay (the distribution takes its parameters, and the loops end within the fuel), then twice for
  -- each byte and twice more are enough turns, and the injector returns the response that it was
  -- given.
  pub delayed_body-whole :
      (settings : LatencySettings F) (rng : R) (event : ProxyTaskEvent) (now : ℕ) (resp : Response)
      (turns : List (Draws fl rand cursor timer))
      → Schedule
          (reader fl rand cursor timer)
          rs
          Woken
          (wrap fl rand cursor timer settings rng event resp.body)
          turns
      → 2 * length resp.body + 2 < length turns
      → (events : List (TaskProgressEvent F)) × (apply_on_response fl rand cursor timer rs settings
            rng event now resp turns
          ≡ done (some (ok resp), events))
  unfolding apply_on_response limit_response wrap
  delayed_body-whole settings rng event now resp turns fair enough =
      elim (Bool-cases (same_side settings.side server)) [
        | inr other ↦ ([], rw other)
        | inl served ↦
            let w = wrap fl rand cursor timer settings rng event resp.body in
            let bytes : content w.under.stream ≡ resp.body = content-of_bytes resp.body in
            let (events, drained) =
              drain-whole (reader fl rand cursor timer) rs Any Woken left step w turns [] tt fair
                (omega (arith, ap length bytes)) in
            let limited =
              limit_response_lem (reader fl rand cursor timer) rs resp turns w resp.body events
                (drained ∙ ap (λ b. done (some (ok b), events)) bytes) in
            (
              report event now (on_with_fault (FaultEvent.latency ingress server none)) ++ events,
              rw (served, limited),
            )
      ]
