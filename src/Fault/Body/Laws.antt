-- ===== src/Fault/Body/Laws.antt =====
-- What a body becomes that is read through a wrapper.
use mathlib.Core.List.{append-nil, append_assoc}
use mathlib.Core.Path.{subst}
use lueur.Prelude.{
  ℕ, suc, ◌-◌, ◌≤◌, ◌<◌, ◌≡◌, refl, ◌∙◌, ◌⊎◌, inl, inr, min, Option, some, List, [], ◌∷◌, ◌++◌,
  length, Result, ok, err, ◌≢◌, Run, panic, Run-cases, done, arith,
}
use lueur.Event.{TaskProgressEvent}
use lueur.Fault.{Outcome, pending, ready}
use lueur.Proxy.Forward.{Response}
use lueur.Errors.{ProxyError, io_error}
use lueur.Fault.Body.{
  answered, Read, waits, chunk, end, failed, take, drop, Wrapper, ReaderStream, with_events, drain,
  limit_response, ReqwestRequest, limit_request,
}

pub take-drop : (n : ℕ) (xs : List ℕ) → take (min n (length xs)) xs ++ drop n xs ≡ xs
take-drop n [] = refl
take-drop n (x ∷ xs) = ground (arith, take-drop (n - 1) xs)

pub length-drop : (n : ℕ) (xs : List ℕ) → 1 ≤ n → 1 ≤ length xs → length (drop n xs) < length xs
length-drop n [] pos some_left = absurd (omega arith)
length-drop n (x ∷ []) pos some_left = ground arith
length-drop n (x ∷ y ∷ xs) pos some_left = ground (arith, length-drop (n - 1) (y ∷ xs))

-- A read finds nothing left, or moves some bytes.
read_cases :
    (xs : List ℕ) (m : ℕ)
    → 1 ≤ m
    → (xs ≡ []) ⊎ ((1 ≤ length xs) × (k : ℕ) × (min m (length xs) ≡ suc k))
read_cases [] m pos = inl refl
read_cases (x ∷ xs) m pos = inr (omega arith, min m (length (x ∷ xs)) - 1, ground arith)

-- What holds of the value of a call that does not panic.
abbrev pub Then : {A : Type 0} → Run A → (A → Type 0) → Type 0
Then panic P = Unit
Then (done a) P = P a

module _ {F : Type 0} (wrapper : Wrapper F) (rs : ReaderStream) where
  open wrapper use {W, Turn, room, source, poll}
  open rs use {item, item-pending, item-end, item-chunk}

  -- A poll reads what fits of what is left.
  abbrev pub Reads : W → Turn → W → Outcome → Type 0
  Reads w t after outcome =
      (outcome ≡ ready (ok (min (room w t) (length (source w)))))
      × (source after ≡ drop (room w t) (source w))
      × (1 ≤ room w t)

  drain_wait :
      (w after : W) (t : Turn) (ts : List Turn) (buffer : List ℕ)
      (events : List (TaskProgressEvent F))
      → poll w t ≡ done (after, pending, events)
      → drain wrapper rs w (t ∷ ts) buffer
        ≡ with_events wrapper rs events (drain wrapper rs after ts buffer)
  unfolding drain
  drain_wait w after t ts buffer events e = rw (e, item-pending)

  pub drain_end :
      (w after : W) (t : Turn) (ts : List Turn) (buffer : List ℕ)
      (events : List (TaskProgressEvent F))
      → poll w t ≡ done (after, ready (ok 0), events)
      → drain wrapper rs w (t ∷ ts) buffer ≡ done (some (ok buffer), events)
  unfolding drain
  drain_end w after t ts buffer events e = rw (e, item-end)

  pub drain_chunk :
      (w after : W) (t : Turn) (ts : List Turn) (buffer : List ℕ) (n : ℕ)
      (events : List (TaskProgressEvent F))
      → poll w t ≡ done (after, ready (ok (suc n)), events)
      → drain wrapper rs w (t ∷ ts) buffer
        ≡ with_events wrapper rs events
            (drain wrapper rs after ts (buffer ++ take (suc n) (source w)))
  unfolding drain
  drain_chunk w after t ts buffer n events e = rw (e, item-chunk n)

  -- A read at the end ends the loop; any other adds what it took to the buffer.
  pub drain_read :
      (w after : W) (t : Turn) (ts : List Turn) (buffer : List ℕ) (outcome : Outcome)
      (events : List (TaskProgressEvent F))
      → poll w t ≡ done (after, outcome, events)
      → Reads w t after outcome
      → ((source w ≡ []) × (drain wrapper rs w (t ∷ ts) buffer ≡ done (some (ok buffer), events)))
        ⊎ ((1 ≤ length (source w))
            × (taken : List ℕ) × (taken ++ source after ≡ source w)
            × (drain wrapper rs w (t ∷ ts) buffer
                ≡ with_events wrapper rs events (drain wrapper rs after ts (buffer ++ taken))))
  drain_read w after t ts buffer outcome events e (moved, cut, pos) =
      elim (read_cases (source w) (room w t) pos) [
        | inl empty ↦
            let nothing : outcome ≡ ready (ok 0) = ground arith in
            inl (empty, drain_end w after t ts buffer events (rw (← nothing) e))
        | inr (some_left, k, size) ↦
            let same : outcome ≡ ready (ok (suc k)) = ground arith in
            inr (
              some_left,
              take (suc k) (source w),
              rw cut (rw (← size) (take-drop (room w t) (source w))),
              drain_chunk w after t ts buffer k events (rw (← same) e),
            )
      ]

  with_events-panic :
      (events : List (TaskProgressEvent F)) (r : Run (Read F))
      → r ≢ panic
      → with_events wrapper rs events r ≢ panic
  with_events-panic events panic h e = h refl
  with_events-panic events (done read) h e = cc e

  -- The loop does not panic if no poll does.
  drain-no_panic :
      ((w : W) (t : Turn) → poll w t ≢ panic)
      → (w : W) (ts : List Turn) (buffer : List ℕ) → drain wrapper rs w ts buffer ≢ panic
  unfolding drain
  drain-no_panic safe w [] buffer = λ e. cc e
  drain-no_panic safe w (t ∷ ts) buffer = elim (Run-cases (poll w t)) [
    | inl fails ↦ absurd (safe w t fails)
    | inr (p, polled) ↦
        rw polled
          (elim (item p.1)
            as (λ i.
              (elim i as (λ x. Run (Read F)) [
                | waits ↦ with_events wrapper rs p.2 (drain wrapper rs p.0 ts buffer)
                | chunk n ↦
                    with_events wrapper rs p.2
                      (drain wrapper rs p.0 ts (buffer ++ take n (source w)))
                | end ↦ done (some (ok buffer), p.2)
                | failed e ↦ done (some (err (io_error e)), p.2)
              ])
              ≢ panic) [
                | waits ↦ with_events-panic p.2 _ (drain-no_panic safe p.0 ts buffer)
                | chunk n ↦
                    with_events-panic p.2 _
                      (drain-no_panic safe p.0 ts (buffer ++ take n (source w)))
                | end ↦ λ e. cc e
                | failed t ↦ λ e. cc e
              ])
  ]

  pub limit_response-done :
      ((w : W) (t : Turn) → poll w t ≢ panic)
      → (resp : Response) (ts : List Turn) (w : W)
      → (r : Option (Result Response ProxyError) × List (TaskProgressEvent F)) × (limit_response
            wrapper rs resp ts w
          ≡ done r)
  unfolding limit_response
  limit_response-done safe resp ts w = elim (Run-cases (drain wrapper rs w ts [])) [
    | inl fails ↦ absurd (drain-no_panic safe w ts [] fails)
    | inr (read, drained) ↦ ((answered resp read.0, read.1), rw drained)
  ]

  pub limit_response_lem :
      (resp : Response) (ts : List Turn) (w : W) (body : List ℕ)
      (events : List (TaskProgressEvent F))
      → drain wrapper rs w ts [] ≡ done (some (ok body), events)
      → limit_response wrapper rs resp ts w ≡ done (some (ok (record resp { body = body })), events)
  unfolding limit_response
  limit_response_lem resp ts w body events e = rw e

  module _ (Fair : W → Turn → Type 0) where
    -- Each poll is made at a moment that is fair in the state that it finds.
    abbrev pub Schedule : W → List Turn → Type 0
    Schedule w [] = Unit
    Schedule w (t ∷ ts) = Fair w t × Then (poll w t) (λ p. Schedule p.0 ts)

  module _ (Inv : W → Type 0) (Fair : W → Turn → Type 0) (left : W → ℕ) where
    -- A poll waits, or reads; `left` falls but for a read at the end.
    abbrev pub Delivers : W → Turn → Type 0
    Delivers w t =
        (after : W) × (outcome : Outcome) × (events : List (TaskProgressEvent F)) × (poll w t
          ≡ done (after, outcome, events))
        × Inv after
        × (((outcome ≡ pending) × (source after ≡ source w) × (left after < left w))
            ⊎ (Reads w t after outcome × (1 ≤ length (source w) → left after < left w)))

    module _ (step : (w : W) (t : Turn) → Inv w → Fair w t → Delivers w t) where
      pub drain-whole :
          (w : W) (ts : List Turn) (buffer : List ℕ)
          → Inv w
          → Schedule Fair w ts
          → left w < length ts
          → (events : List (TaskProgressEvent F)) × (drain wrapper rs w ts buffer
              ≡ done (some (ok (buffer ++ source w)), events))
      unfolding drain
      drain-whole w [] buffer inv sched enough = absurd (omega arith)
      drain-whole w (t ∷ ts) buffer inv (fair, sched) enough =
          let (after, outcome, events, polled, inv', what) = step w t inv fair in
          let sched' : Schedule Fair after ts =
            subst (λ r. Then r (λ p. Schedule Fair p.0 ts)) polled sched in
          elim what [
            | inl (e, same, less) ↦
                let (later, rest) = drain-whole after ts buffer inv' sched' (omega arith) in
                let waited = drain_wait w after t ts buffer events (rw (← e) polled) in
                (events ++ later, waited ∙ rw (rest, same))
            | inr (reads, less) ↦
                elim (drain_read w after t ts buffer outcome events polled reads) [
                  | inl (empty, ended) ↦ (events, ended ∙ rw (empty, append-nil buffer))
                  | inr (some_left, taken, whole, continued) ↦
                      let (later, rest) =
                        drain-whole after ts (buffer ++ taken) inv' sched'
                          (omega (arith, less some_left)) in
                      (
                        events ++ later,
                        continued ∙ rw (rest, append_assoc buffer taken (source after), whole),
                      )
                ]
          ]

-- Once an injector has been applied to a request, another one leaves it as it is: a body that was
-- wrapped shows no bytes, and one that was not wrapped has none.
pub limit_request-again :
    {L : Type 0} (try_clone try_clone' : ReqwestRequest L → Option (ReqwestRequest L))
    (wrap wrap' : List ℕ → Run L) (request limited_request : ReqwestRequest L)
    → limit_request try_clone wrap request ≡ done (ok limited_request)
    → limit_request try_clone' wrap' limited_request ≡ done (ok limited_request)
unfolding limit_request
limit_request-again try_clone try_clone' wrap wrap' request limited_request e = ground arith
