-- ===== src/Fault/Bandwidth/Inject/Laws.antt =====
-- A bandwidth fault does not slow the writes of a tunnel.
use lueur.Prelude.{
  ◌^◌, ◌≤◌, ◌<◌, ◌≡◌, refl, ap, ◌∙◌, inl, inr, some, List, [], ◌∷◌, ◌++◌, done, ℕ, All, Bool-cases,
  Option-cases,
}
use lueur.Types.Direction.{is_egress}
use lueur.Types.BandwidthUnit.{to_bytes_per_second}
use lueur.Event.{TaskProgressEvent, ProxyTaskEvent}
use lueur.Config.{BandwidthSettings}
use lueur.Fault.{Stream}
use lueur.Fault.Inject.{Splitting, limited, poll_half, wrap_halves}
use lueur.Fault.Inject.Laws.{half_ran, half_ran-plain, stream_outcomes, writes, writes-half}
use lueur.Fault.Bandwidth.{RateLimiter, BandwidthStream, new, poll_write}
use lueur.Fault.Bandwidth.Laws.{Sized, new-Sized, write_step}
use lueur.Fault.Bandwidth.Inject.{Turn, reads, inject, or_plain}
use lueur.Fault.Bandwidth.Inject

module _ (F : Type 0) (limiters : RateLimiter) where
  open limiters use {L}

  half_ran-Sized :
      (inner : Stream) (ts : List (Turn F limiters)) (st : BandwidthStream F inner limiters) (l : L)
      → Sized F inner limiters st l
      → All (λ t. 1 ≤ t.len) ts
      → (events : List (TaskProgressEvent F)) × (half_ran inner
            (Inject.writes F limiters inner)
            (limited st)
            ts
          ≡ done (stream_outcomes inner (Inject.writes F limiters inner) st.stream ts, events))
  unfolding poll_half
  half_ran-Sized inner [] st l s pos = ([], refl)
  half_ran-Sized inner (t ∷ ts) st l s (here, pos) =
      let p = poll_write F inner limiters st t.now t.len in
      let (same, moved, s') = write_step F inner limiters st l t.now t.len s here in
      let (events, ran) = half_ran-Sized inner ts p.after _ s' pos in
      (p.events ++ events, rw (ran, same, moved))

  -- The writes of a stream into which a bandwidth fault below 2^32 bytes per second is injected have
  -- the outcomes that they have without the fault, whichever its direction, whatever the limiter
  -- answers for the cells, and however fast they follow each other, if each has a byte at least.
  pub inject-not_limited :
      (sp : Splitting) (settings : BandwidthSettings) (event : ProxyTaskEvent) (now : ℕ)
      (stream : sp.Whole) (ts : List (Turn F limiters))
      → to_bytes_per_second settings.bandwidth_unit settings.bandwidth_rate < 2 ^ 32
      → All (λ t. 1 ≤ t.len) ts
      → (events : List (TaskProgressEvent F)) × (writes sp
            (reads F limiters sp.Reader)
            (Inject.writes F limiters sp.Writer)
            (inject F limiters sp settings event now stream).0
            ts
          ≡ done (
            stream_outcomes sp.Writer (Inject.writes F limiters sp.Writer) (sp.split stream).1 ts,
            events,
          ))
  unfolding inject wrap_halves
  inject-not_limited sp settings event now stream ts small pos =
      let half = (sp.split stream).1 in
      let layer = Inject.writes F limiters sp.Writer in
      let split_writes =
        writes-half sp (reads F limiters sp.Reader) layer
          (inject F limiters sp settings event now stream).0 ts in
      elim (Bool-cases (is_egress settings.direction)) [
        | inr other ↦
            ([], split_writes ∙ rw (wrap_halves, other) (half_ran-plain sp.Writer layer half ts))
        | inl limits ↦ elim (Option-cases (new F sp.Writer limiters half settings (some event))) [
          | inl refused ↦ (
            [],
            split_writes
                ∙ rw (wrap_halves, limits, refused) (half_ran-plain sp.Writer layer half ts),
          )
          | inr (st, made) ↦
              let (sized, same) =
                new-Sized F sp.Writer limiters half settings (some event) st made small in
              let (events, ran) = half_ran-Sized sp.Writer ts st _ sized pos in
              (
                events,
                split_writes
                    ∙ rw (wrap_halves, limits, made)
                        (ran ∙ ap (λ s. done (stream_outcomes sp.Writer layer s ts, events)) same),
              )
        ]
      ]
