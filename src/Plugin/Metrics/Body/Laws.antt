-- ===== src/Plugin/Metrics/Body/Laws.antt =====
-- A body that is measured arrives whole.
use lueur.Prelude.{
  ℕ, ◌≤◌, ◌<◌, ◌≡◌, refl, ap, ◌∙◌, inr, some, List, [], ◌∷◌, ok, length, done, arith, All,
}
use lueur.Event.{TaskProgressEvent, ProxyTaskEvent}
use lueur.Fault.Body.{Cursor, ReaderStream}
use lueur.Fault.Body.Laws.{length-drop, limit_response_lem, Delivers, Schedule, drain-whole}
use lueur.Plugin.Metrics.{WrapperStream, poll_read, new}
use lueur.Plugin.Metrics.Body.{Turn, reader, apply_on_response}
use lueur.Proxy.Forward.{Response}

module _ (F : Type 0) (cursor : Cursor) (rs : ReaderStream) (event : ProxyTaskEvent) where
  open cursor use {stream, of_bytes, content, content-of_bytes, poll-outcome, poll-content}

  abbrev HasRoom : WrapperStream stream → Turn F cursor → Type 0
  HasRoom w t = 1 ≤ t.len

  abbrev Any : WrapperStream stream → Type 0
  Any w = Unit

  abbrev left : WrapperStream stream → ℕ
  left w = length (content w.stream)

  step :
      (w : WrapperStream stream) (t : Turn F cursor)
      → Any w
      → HasRoom w t
      → Delivers (reader F cursor event) rs Any HasRoom left w t
  unfolding poll_read
  step w t any pos =
      let cut = poll-content t.len w.stream in
      (
        _,
        _,
        _,
        refl,
        tt,
        inr (
          (poll-outcome t.len w.stream, cut, pos),
          λ some_left.
              omega (arith, ap length cut, length-drop t.len (content w.stream) pos some_left),
        ),
      )

  fair :
      (ts : List (Turn F cursor)) (w : WrapperStream stream)
      → All (λ t. 1 ≤ t.len) ts
      → Schedule (reader F cursor event) rs HasRoom w ts
  fair [] w rooms = tt
  fair (t ∷ ts) w (pos, rooms) = (pos, fair ts _ rooms)

  -- The metrics injector returns a response as it was, after as many polls with room for a byte as
  -- the body has bytes, and one more.
  measured_body-whole :
      (resp : Response) (turns : List (Turn F cursor))
      → All (λ t. 1 ≤ t.len) turns
      → length resp.body < length turns
      → (events : List (TaskProgressEvent F)) × (apply_on_response F cursor rs event resp turns
          ≡ done (some (ok resp), events))
  unfolding apply_on_response new
  measured_body-whole resp turns rooms enough =
      let w = new stream (of_bytes resp.body) in
      let bytes : content w.stream ≡ resp.body = content-of_bytes resp.body in
      let (events, drained) =
        drain-whole (reader F cursor event) rs Any HasRoom left step w turns [] tt
          (fair turns w rooms) (omega (arith, ap length bytes)) in
      (
        events,
        limit_response_lem (reader F cursor event) rs resp turns w resp.body events
            (drained ∙ ap (λ b. done (some (ok b), events)) bytes),
      )
