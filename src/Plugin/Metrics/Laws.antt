-- ===== src/Plugin/Metrics/Laws.antt =====
-- The wrapper is transparent, and reports once.
use lueur.Prelude.{◌≡◌, refl, Bool, true, false, List, [], ◌∷◌, ap, arith, if◌then◌else◌}
use lueur.Event.{on_first_byte}
use lueur.Fault.{Stream, Outcome}
use lueur.Plugin.Metrics.{
  WrapperStream, new, Op, read, write, run, poll_read, poll_write, first_byte,
}

module _ (s : Stream) where
  open s use {S, poll}

  -- The operations on the stream itself.
  abbrev pub run_plain : S → List (Op s) → S × List Outcome
  run_plain st [] = (st, [])
  run_plain st (read len ∷ ops) =
      let (st', outcome) = poll len st in
      let (last, outcomes) = run_plain st' ops in (last, outcome ∷ outcomes)
  run_plain st (write len ∷ ops) =
      let (st', outcome) = poll len st in
      let (last, outcomes) = run_plain st' ops in (last, outcome ∷ outcomes)

  abbrev pub reads : List (Op s) → Bool
  reads [] = false
  reads (read len ∷ ops) = true
  reads (write len ∷ ops) = reads ops

  run-from :
      {F : Type 0} (this : WrapperStream s) (ops : List (Op s))
      → ((run s {F = F} this ops).0.stream ≡ (run_plain this.stream ops).0)
        × ((run s {F = F} this ops).2 ≡ (run_plain this.stream ops).1)
        × ((run s {F = F} this ops).1
            ≡ (if reads ops then (if this.ttfb_event_sent then [] else on_first_byte ∷ []) else []))
  unfolding run poll_read poll_write first_byte
  run-from this [] = (refl, refl, refl)
  run-from {F} this (read len ∷ ops) =
      let (st, outcomes, reports) = run-from {F = F} (poll_read s {F = F} this len).0 ops in
      (st, ap (λ (os : List Outcome). (poll len this.stream).1 ∷ os) outcomes, ground arith)
  run-from {F} this (write len ∷ ops) =
      let (st, outcomes, reports) = run-from {F = F} (poll_write s this len).0 ops in
      (st, ap (λ (os : List Outcome). (poll len this.stream).1 ∷ os) outcomes, reports)

  -- Any sequence of operations on a new wrapper has the outcomes that it has on the stream itself,
  -- and leaves the stream in the same state. The first byte is reported once if there is a read
  -- among them, even if no read brings a byte, and otherwise not at all.
  pub run_lem :
      {F : Type 0} (stream : S) (ops : List (Op s))
      → ((run s {F = F} (new s stream) ops).0.stream ≡ (run_plain stream ops).0)
        × ((run s {F = F} (new s stream) ops).2 ≡ (run_plain stream ops).1)
        × ((run s {F = F} (new s stream) ops).1 ≡ (if reads ops then on_first_byte ∷ [] else []))
  unfolding new
  run_lem stream ops = run-from (new s stream) ops
