-- ===== src/Fault/Bandwidth/Laws.antt =====
-- Which rates give a wrapper, and that the wrapper does not slow its stream.
use lueur.Prelude.{
  ℕ, ◌%◌, ◌^◌, ◌≤◌, ◌<◌, ◌≡◌, ◌↔◌, refl, min, Option, none, some, List, [], ◌∷◌, arith, All, ap,
  ◌∙◌,
}
use lueur.Types.BandwidthUnit.{to_bytes_per_second}
use lueur.Event.{ProxyTaskEvent}
use lueur.Config.{BandwidthSettings}
use lueur.Fault.{Stream, Outcome}
use lueur.Fault.Bandwidth.{
  RateLimiter, BandwidthStream, non_zero_u32, new, still, transfer, check, limit, poll_write,
}

module _ (F : Type 0) (inner : Stream) (limiters : RateLimiter) where
  open inner use {S, poll}
  open limiters use {L, direct, burst, check_n, burst-direct, burst-check_n, check_n-ok}

  -- No wrapper is made exactly when the rate in bytes per second is a multiple of 2^32, 0 included.
  pub new-none_iff :
      (stream : S) (settings : BandwidthSettings) (event : Option ProxyTaskEvent)
      → (new F inner limiters stream settings event ≡ none)
        ↔ (to_bytes_per_second settings.bandwidth_unit settings.bandwidth_rate % 2 ^ 32 ≡ 0)
  unfolding new non_zero_u32
  new-none_iff stream settings event = ground arith

  abbrev pub State : Type 0
  State = BandwidthStream F inner limiters

  -- The limiter's burst is the greatest size, which fits in 32 bits and is not 0.
  abbrev pub Sized : State → L → Type 0
  Sized st l =
      (st.limiter ≡ some l) × (burst l ≡ st.max_size) × (st.max_size < 2 ^ 32) × (1 ≤ st.max_size)

  pub new-Sized :
      (stream : S) (settings : BandwidthSettings) (event : Option ProxyTaskEvent) (st : State)
      → new F inner limiters stream settings event ≡ some st
      → to_bytes_per_second settings.bandwidth_unit settings.bandwidth_rate < 2 ^ 32
      → Sized st (direct st.max_size) × (st.stream ≡ stream)
  unfolding new non_zero_u32
  new-Sized stream settings event st e lt = ground (arith, burst-direct st.max_size)

  pub write_step :
      (st : State) (l : L) (now len : ℕ)
      → Sized st l
      → 1 ≤ len
      → ((poll_write F inner limiters st now len).outcome ≡ (poll len st.stream).1)
        × ((poll_write F inner limiters st now len).after.stream ≡ (poll len st.stream).0)
        × Sized
            (poll_write F inner limiters st now len).after
            (check_n l now (min st.max_size len)).0
  unfolding poll_write limit still transfer check non_zero_u32
  write_step st l now len s pos =
      let size = min st.max_size len in
      let small : size ≤ burst l = omega arith in
      let (c, granted) = check_n-ok l now size small in
      ground (arith, granted, burst-check_n l now size)

  -- A write: the time and the number of bytes.
  abbrev pub Write : Type 0
  Write = ℕ × ℕ

  abbrev pub limited_outcomes : State → List Write → List Outcome
  limited_outcomes st [] = []
  limited_outcomes st ((now, len) ∷ ws) =
      (poll_write F inner limiters st now len).outcome
      ∷ limited_outcomes (poll_write F inner limiters st now len).after ws

  -- The same writes on the wrapped stream alone.
  abbrev pub plain_outcomes : S → List Write → List Outcome
  plain_outcomes s [] = []
  plain_outcomes s ((now, len) ∷ ws) = (poll len s).1 ∷ plain_outcomes (poll len s).0 ws

  writes_lem :
      (st : State) (l : L) (ws : List Write)
      → Sized st l
      → All (λ (w : Write). 1 ≤ w.1) ws
      → limited_outcomes st ws ≡ plain_outcomes st.stream ws
  writes_lem st l [] s h = refl
  writes_lem st l ((now, len) ∷ ws) s (pos, h) =
      let (same, stream, s') = write_step st l now len s pos in
      let rest = writes_lem (poll_write F inner limiters st now len).after _ ws s' h in
      ground (arith, same, stream, rest)

  -- A wrapper whose rate is below 2^32 bytes per second never holds a write back: whatever the
  -- limiter answers for the cells, and however fast the writes follow each other, writes of at
  -- least one byte have the same outcomes as on the wrapped stream alone.
  pub writes_not_limited :
      (stream : S) (settings : BandwidthSettings) (event : Option ProxyTaskEvent) (st : State)
      (ws : List Write)
      → new F inner limiters stream settings event ≡ some st
      → to_bytes_per_second settings.bandwidth_unit settings.bandwidth_rate < 2 ^ 32
      → All (λ (w : Write). 1 ≤ w.1) ws
      → limited_outcomes st ws ≡ plain_outcomes stream ws
  writes_not_limited stream settings event st ws e lt h =
      let (s, same) = new-Sized stream settings event st e lt in
      writes_lem st _ ws s h ∙ ap (λ x. plain_outcomes x ws) same
