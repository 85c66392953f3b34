-- ===== src/Fault/Bandwidth/Body/Laws.antt =====
-- Which responses the bandwidth fault panics on, and that it holds no body back.
use lueur.Prelude.{
  ℕ, ◌%◌, ◌^◌, ◌≤◌, ◌<◌, ◌≡◌, ◌↔◌, refl, ap, ◌∙◌, inl, inr, min, none, some, List, [], ◌∷◌, ◌++◌,
  length, ok, done, panic, arith, All, Option-cases,
}
use lueur.Types.Direction.{ingress}
use lueur.Types.StreamSide.{server}
use lueur.Types.BandwidthUnit.{to_bytes_per_second}
use lueur.Event.{TaskProgressEvent, ProxyTaskEvent, FaultEvent, report, on_with_fault}
use lueur.Config.{BandwidthSettings}
use lueur.Fault.Body.{Cursor, ReaderStream}
use lueur.Fault.Body.Laws.{
  length-drop, limit_response-done, limit_response_lem, Delivers, Schedule, drain-whole,
}
use lueur.Fault.Bandwidth.{RateLimiter, new, poll_read, limit, transfer, check, non_zero_u32}
use lueur.Fault.Bandwidth.Laws.{Sized, new-Sized, new-none_iff}
use lueur.Fault.Bandwidth.Body.{Turn, Limited, reader, wrap, apply_on_response}
use lueur.Proxy.Forward.{Response}

module _ (F : Type 0) (cursor : Cursor) (limiters : RateLimiter) (rs : ReaderStream) where
  open cursor use {stream, of_bytes, content, content-of_bytes, poll-outcome, poll-content}
  open limiters use {L, burst, check_n, burst-check_n, check_n-ok}

  abbrev pub HasRoom : Limited F cursor limiters → Turn F cursor limiters → Type 0
  HasRoom w t = 1 ≤ t.len

  -- The limiter has the burst of the wrapper's rate, which fits in 32 bits.
  abbrev Limits : Limited F cursor limiters → Type 0
  Limits w = (l : L) × Sized F stream limiters w l

  abbrev left : Limited F cursor limiters → ℕ
  left w = length (content w.stream)

  step :
      (w : Limited F cursor limiters) (t : Turn F cursor limiters)
      → Limits w
      → HasRoom w t
      → Delivers (reader F cursor limiters) rs Limits HasRoom left w t
  unfolding poll_read limit transfer check non_zero_u32
  step w t (l, s) pos =
      let size = min w.max_size t.len in
      let small : size ≤ burst l = omega arith in
      let (c, granted) = check_n-ok l t.now size small in
      let p = poll_read F stream limiters w t.now t.len in
      let sized : Sized F stream limiters p.after (check_n l t.now size).0 =
        ground (arith, granted, burst-check_n l t.now size) in
      let passed : p.outcome ≡ (stream.poll size w.stream).1 = ground (arith, granted) in
      let moved : p.after.stream ≡ (stream.poll size w.stream).0 = ground (arith, granted) in
      let cut = ap content moved ∙ poll-content size w.stream in
      (
        p.after,
        p.outcome,
        p.events,
        refl,
        (_, sized),
        inr (
          (passed ∙ poll-outcome size w.stream, cut, omega arith),
          λ some_left.
              omega
                (arith, ap length cut, length-drop size (content w.stream) (omega arith) some_left),
        ),
      )

  fair :
      (ts : List (Turn F cursor limiters)) (w : Limited F cursor limiters)
      → All (λ t. 1 ≤ t.len) ts
      → Schedule (reader F cursor limiters) rs HasRoom w ts
  fair [] w rooms = tt
  fair (t ∷ ts) w (pos, rooms) = (pos, fair ts _ rooms)

  -- A response panics exactly if the rate in bytes per second is a multiple of 2^32, 0 included:
  -- `inject` leaves such a stream as it is, but here the missing wrapper is unwrapped.
  pub limited_body-panic_iff :
      (settings : BandwidthSettings) (event : ProxyTaskEvent) (now : ℕ) (resp : Response)
      (turns : List (Turn F cursor limiters))
      → (apply_on_response F cursor limiters rs settings event now resp turns ≡ panic)
        ↔ (to_bytes_per_second settings.bandwidth_unit settings.bandwidth_rate % 2 ^ 32 ≡ 0)
  unfolding apply_on_response wrap
  limited_body-panic_iff settings event now resp turns =
      let made = new F stream limiters (of_bytes resp.body) settings (some event) in
      let rate = new-none_iff F stream limiters (of_bytes resp.body) settings (some event) in
      elim (Option-cases made) [
        | inl refused ↦ (λ e. rate.0 refused, λ e. rw refused)
        | inr (w, wrapped) ↦
            let (r, limited) =
              limit_response-done (reader F cursor limiters) rs (λ v t e. cc e) resp turns w in
            (λ e. ground (arith, wrapped, limited), λ e. ground (arith, rate.1 e, wrapped))
      ]

  -- Below 2^32 bytes per second, a rate does not slow a response down: whatever the limiter answers
  -- for the cells, and however fast the polls follow each other, as many polls with room for a byte
  -- as the body has bytes, and one more, are enough, and the response is as it was.
  pub limited_body-whole :
      (settings : BandwidthSettings) (event : ProxyTaskEvent) (now : ℕ) (resp : Response)
      (turns : List (Turn F cursor limiters))
      → 1 ≤ to_bytes_per_second settings.bandwidth_unit settings.bandwidth_rate
      → to_bytes_per_second settings.bandwidth_unit settings.bandwidth_rate < 2 ^ 32
      → All (λ t. 1 ≤ t.len) turns
      → length resp.body < length turns
      → (events : List (TaskProgressEvent F)) × (apply_on_response F cursor limiters rs settings
            event now resp turns
          ≡ done (some (ok resp), events))
  unfolding apply_on_response wrap
  limited_body-whole settings event now resp turns pos small rooms enough =
      let made = new F stream limiters (of_bytes resp.body) settings (some event) in
      let rate = new-none_iff F stream limiters (of_bytes resp.body) settings (some event) in
      elim (Option-cases made) [
        | inl refused ↦ absurd (omega (arith, rate.0 refused))
        | inr (w, wrapped) ↦
            let (sized, same) =
              new-Sized F stream limiters (of_bytes resp.body) settings (some event) w wrapped
                small in
            let bytes : content w.stream ≡ resp.body =
              ap content same ∙ content-of_bytes resp.body in
            let (events, drained) =
              drain-whole (reader F cursor limiters) rs Limits HasRoom left step w turns []
                (_, sized) (fair turns w rooms) (omega (arith, ap length bytes)) in
            let limited =
              limit_response_lem (reader F cursor limiters) rs resp turns w resp.body events
                (drained ∙ ap (λ b. done (some (ok b), events)) bytes) in
            (
              report event now (on_with_fault (FaultEvent.bandwidth ingress server none)) ++ events,
              rw (wrapped, limited),
            )
      ]
