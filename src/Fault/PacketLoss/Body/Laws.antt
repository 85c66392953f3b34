-- ===== src/Fault/PacketLoss/Body/Laws.antt =====
-- What packet loss leaves of a body.
use mathlib.Core.List.{append-nil, append_assoc}
use lueur.Prelude.{
  ℕ, ◌≤◌, ◌<◌, ◌≡◌, refl, ap, ◌∙◌, ◌⊎◌, inl, inr, false, some, List, [], ◌∷◌, ◌++◌, length, ok,
  done, arith, Bool-cases, All,
}
use lueur.Prelude.Float.{Float}
use lueur.Types.Direction.{ingress}
use lueur.Types.StreamSide.{server}
use lueur.Event.{TaskProgressEvent, ProxyTaskEvent, FaultEvent, report, on_with_fault}
use lueur.Config.{PacketLossSettings}
use lueur.Fault.{ready}
use lueur.Fault.Latency.{applied}
use lueur.Fault.Body.{Cursor, ReaderStream, drain}
use lueur.Fault.Body.Laws.{length-drop, limit_response_lem, drain_end, drain_read}
use lueur.Fault.PacketLoss.{finish, poll_op}
use lueur.Fault.PacketLoss.Laws.{transition_lem, loss_of}
use lueur.Fault.PacketLoss.Body.{Turn, Limited, reader, wrap, apply_on_response}
use lueur.Proxy.Forward.{Response}

module _ (fl : Float) (cursor : Cursor) (rs : ReaderStream) where
  open fl use {F, lit, add, lt}
  open cursor use {stream, content, content-of_bytes, poll-outcome, poll-content}

  -- What is reported of a dropped read.
  abbrev loss : Limited fl cursor → (now : ℕ) → List (TaskProgressEvent F)
  loss w now = applied w.event now (FaultEvent.packet_loss w.direction w.side)

  -- There is room for a byte, and the first number drawn is not below 0.
  abbrev pub Drawn : Turn fl cursor → Type 0
  Drawn t = (1 ≤ t.len) × (lt t.rand_val (lit 0 1) ≡ false)

  -- A poll drops the read and reports it, or reads and reports nothing.
  polled :
      (w : Limited fl cursor) (t : Turn fl cursor)
      → Drawn t
      → ((x y : F) → lt y (add x (lit 0 1)) ≡ lt y x)
      → (after : Limited fl cursor) × (((reader fl cursor).poll w t
            ≡ done (after, ready (ok 0), loss w t.now))
          ⊎ (((reader fl cursor).poll w t ≡ done (after, (stream.poll t.len w.stream).1, []))
              × (after.stream ≡ (stream.poll t.len w.stream).0)
              × ((now : ℕ) → loss after now ≡ loss w now)))
  unfolding poll_op finish
  polled w t (pos, z) az =
      let (s', moves, near) = transition_lem fl w.state t.rand_val t.chance z az in
      elim (Bool-cases (lt t.chance (loss_of fl s'))) [
        | inl drops ↦ (record w { state = s' }, inl (ground (arith, moves)))
        | inr passes ↦ (
          record w { state = s'; stream = (stream.poll t.len w.stream).0 },
          inr (ground (arith, moves), refl, λ now. refl),
        )
      ]

  -- What came before the first dropped read, which was reported at some moment, or all of a body.
  abbrev pub Cut :
      (body out : List ℕ) (events : List (TaskProgressEvent F))
      (loss_at : ℕ → List (TaskProgressEvent F))
      → Type 0
  Cut body out events loss_at =
      (rest : List ℕ) × (out ++ rest ≡ body)
      × (((rest ≡ []) × (events ≡ [])) ⊎ ((now : ℕ) × (events ≡ loss_at now)))

  drain-Cut :
      (w : Limited fl cursor) (ts : List (Turn fl cursor)) (buffer : List ℕ)
      → All Drawn ts
      → ((x y : F) → lt y (add x (lit 0 1)) ≡ lt y x)
      → length (content w.stream) < length ts
      → (out : List ℕ) × (events : List (TaskProgressEvent F)) × (drain
            (reader fl cursor)
            rs
            w
            ts
            buffer
          ≡ done (some (ok (buffer ++ out)), events))
        × Cut (content w.stream) out events (loss w)
  drain-Cut w [] buffer drawn az enough = absurd (omega arith)
  drain-Cut w (t ∷ ts) buffer (now, drawn) az enough =
      let (after, what) = polled w t now az in
      elim what [
        | inl dropped ↦ (
          [],
          loss w t.now,
          drain_end (reader fl cursor) rs w after t ts buffer (loss w t.now) dropped
              ∙ rw (append-nil buffer),
          (content w.stream, refl, inr (t.now, refl)),
        )
        | inr (passed, moved, kept) ↦
            let cut = ap content moved ∙ poll-content t.len w.stream in
            elim (drain_read (reader fl cursor) rs w after t ts buffer
              (stream.poll t.len w.stream).1 [] passed (poll-outcome t.len w.stream, cut, now.0)) [
                | inl (empty, ended) ↦
                    ([], [], ended ∙ rw (append-nil buffer), ([], rw empty, inl (refl, refl)))
                | inr (some_left, taken, whole, continued) ↦
                    let (out, events, drained, (rest, joined, why)) =
                      drain-Cut after ts (buffer ++ taken) drawn az (
                        omega (
                          arith,
                          ap length cut,
                          length-drop t.len (content w.stream) now.0 some_left,
                        )) in
                    (
                      taken ++ out,
                      events,
                      continued ∙ rw (drained, append_assoc buffer taken out),
                      (
                        rest,
                        append_assoc taken out rest ∙ rw joined whole,
                        elim why [
                          | inl all ↦ inl all
                          | inr (moment, lost) ↦ inr (moment, lost ∙ kept moment)
                        ],
                      ),
                    )
              ]
      ]

  -- A response read through packet loss is returned after at most one turn for each byte and one
  -- more, without an error, if adding the literal 0.0 to a number changes no comparison with it, and each turn has room for
  -- a byte and draws a number that is not below 0. Its status and headers are those it had, and its
  -- body is all of the body, with nothing reported, or what came before the first dropped read,
  -- which is reported.
  pub lossy_body-Cut :
      (settings : PacketLossSettings) (event : ProxyTaskEvent) (now : ℕ) (resp : Response)
      (turns : List (Turn fl cursor))
      → All Drawn turns
      → ((x y : F) → lt y (add x (lit 0 1)) ≡ lt y x)
      → length resp.body < length turns
      → (out : List ℕ) × (events : List (TaskProgressEvent F)) × (apply_on_response fl cursor rs
            settings event now resp turns
          ≡ done (
            some (ok (record resp { body = out })),
            report event now (on_with_fault (FaultEvent.packet_loss ingress server)) ++ events,
          ))
        × Cut resp.body out events
            (λ moment. applied (some event) moment (FaultEvent.packet_loss ingress settings.side))
  unfolding apply_on_response wrap
  lossy_body-Cut settings event now resp turns drawn az enough =
      let w = wrap fl cursor settings event resp.body in
      let bytes : content w.stream ≡ resp.body = content-of_bytes resp.body in
      let (out, events, drained, (rest, joined, why)) =
        drain-Cut w turns [] drawn az (omega (arith, ap length bytes)) in
      (
        out,
        events,
        rw (limit_response_lem (reader fl cursor) rs resp turns w out events drained),
        (rest, joined ∙ bytes, why),
      )
