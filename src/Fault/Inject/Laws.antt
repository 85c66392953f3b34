-- ===== src/Fault/Inject/Laws.antt =====
-- What the operations of an injected stream do, and what they leave alone.
use lueur.Prelude.{
  ◌≡◌, refl, ap, ◌∙◌, true, false, inl, inr, List, [], ◌∷◌, ◌++◌, Run, done, ◌>>=◌, if◌then◌else◌,
  Run-cases, Bool,
}
use lueur.Types.Direction.{Direction, is_ingress, is_egress}
use lueur.Event.{TaskProgressEvent}
use lueur.Fault.{Stream, Outcome}
use lueur.Fault.Inject.{
  Done, Splitting, Layer, Half, plain, limited, poll_half, under, forward, Limited, poll_read,
  poll_write, poll_flush, poll_shutdown, wrap_halves,
}

-- What a sequence of polls returned and reported.
abbrev pub Ran : Type 0 → Type 0
Ran F = Run (List Outcome × List (TaskProgressEvent F))

abbrev pub and_then : {F : Type 0} → Outcome → List (TaskProgressEvent F) → Ran F → Ran F
and_then outcome events later = do ran ← later; done (outcome ∷ ran.0, events ++ ran.1)

module _ {F : Type 0} (inner : Stream) (layer : Layer F inner) where
  open inner use {S, poll}
  open layer use {W, Turn, room}

  -- The polls of a half.
  abbrev pub half_ran : Half S W → List Turn → Ran F
  half_ran h [] = done ([], [])
  half_ran h (t ∷ ts) = do
    polled ← poll_half inner layer h t
    and_then polled.1 polled.2 (half_ran polled.0 ts)

  -- The same polls on the stream itself.
  abbrev pub stream_outcomes : S → List Turn → List Outcome
  stream_outcomes s [] = []
  stream_outcomes s (t ∷ ts) = (poll (room t) s).1 ∷ stream_outcomes (poll (room t) s).0 ts

  pub half_ran-plain :
      (s : S) (ts : List Turn) → half_ran (plain s) ts ≡ done (stream_outcomes s ts, [])
  unfolding poll_half
  half_ran-plain s [] = refl
  half_ran-plain s (t ∷ ts) = rw (half_ran-plain (poll (room t) s).0 ts)

  half_ran-if :
      (wrapped : Bool) (h : Half S W) (s : S) (ts : List Turn)
      → half_ran (if wrapped then h else plain s) ts
        ≡ (if wrapped then half_ran h ts else done (stream_outcomes s ts, []))
  half_ran-if true h s ts = refl
  half_ran-if false h s ts = half_ran-plain s ts

  -- A call that is forwarded reaches the stream under the half, and nothing else.
  forward-under :
      (call : S → S × Done) (h : Half S W)
      → ((forward inner layer call h).1 ≡ (call (under inner layer h)).1)
        × (under inner layer (forward inner layer call h).0 ≡ (call (under inner layer h)).0)
  unfolding forward under
  forward-under call (plain s) = (refl, refl)
  forward-under call (limited w) = (refl, layer.stream-with_stream _ w)

module _ {F : Type 0} (sp : Splitting) (r : Layer F sp.Reader) (w : Layer F sp.Writer) where
  open sp use {Whole, Reader, Writer, split, flush, shutdown}

  abbrev pub reads : Limited sp r w → List r.Turn → Ran F
  reads b [] = done ([], [])
  reads b (t ∷ ts) = do
    polled ← poll_read sp r w b t
    and_then polled.1 polled.2 (reads polled.0 ts)

  abbrev pub writes : Limited sp r w → List w.Turn → Ran F
  writes b [] = done ([], [])
  writes b (t ∷ ts) = do
    polled ← poll_write sp r w b t
    and_then polled.1 polled.2 (writes polled.0 ts)

  pub reads-half :
      (b : Limited sp r w) (ts : List r.Turn) → reads b ts ≡ half_ran Reader r b.reader ts
  unfolding poll_read
  reads-half b [] = refl
  reads-half b (t ∷ ts) = elim (Run-cases (poll_half Reader r b.reader t)) [
    | inl fails ↦ rw (poll_read, fails)
    | inr (p, polled) ↦
        rw (poll_read, polled) (ap (and_then p.1 p.2) (reads-half (record b { reader = p.0 }) ts))
  ]

  pub writes-half :
      (b : Limited sp r w) (ts : List w.Turn) → writes b ts ≡ half_ran Writer w b.writer ts
  unfolding poll_write
  writes-half b [] = refl
  writes-half b (t ∷ ts) = elim (Run-cases (poll_half Writer w b.writer t)) [
    | inl fails ↦ rw (poll_write, fails)
    | inr (p, polled) ↦
        rw (poll_write, polled) (ap (and_then p.1 p.2) (writes-half (record b { writer = p.0 }) ts))
  ]

  -- A stream that is split for a fault of direction `direction`: its reads are those of the wrapper
  -- of the read half if the direction has ingress, and otherwise those of the read half itself, with
  -- nothing reported; its writes likewise, with egress. Flushing and shutting down, after
  -- whatever polls, reach the stream under the write half and return what it returns.
  pub wrap_halves_lem :
      (direction : Direction) (wrap_read : Reader.S → Half Reader.S r.W)
      (wrap_write : Writer.S → Half Writer.S w.W) (stream : Whole) (ts : List r.Turn)
      (us : List w.Turn) (b : Limited sp r w)
      → (reads (wrap_halves sp r w direction wrap_read wrap_write stream) ts ≡ (
          if is_ingress direction
          then half_ran Reader r (wrap_read (split stream).0) ts
          else done (stream_outcomes Reader r (split stream).0 ts, [])))
        × (writes (wrap_halves sp r w direction wrap_read wrap_write stream) us ≡ (
            if is_egress direction
            then half_ran Writer w (wrap_write (split stream).1) us
            else done (stream_outcomes Writer w (split stream).1 us, [])))
        × ((poll_flush sp r w b).1 ≡ (flush (under Writer w b.writer)).1)
        × (under Writer w (poll_flush sp r w b).0.writer ≡ (flush (under Writer w b.writer)).0)
        × ((poll_shutdown sp r w b).1 ≡ (shutdown (under Writer w b.writer)).1)
        × (under Writer w (poll_shutdown sp r w b).0.writer
            ≡ (shutdown (under Writer w b.writer)).0)
  unfolding wrap_halves poll_flush poll_shutdown
  wrap_halves_lem direction wrap_read wrap_write stream ts us b =
      let (read_half, write_half) = split stream in
      let flushed = forward-under Writer w flush b.writer in
      let ended = forward-under Writer w shutdown b.writer in
      (
        reads-half _ ts
            ∙ half_ran-if Reader r (is_ingress direction) (wrap_read read_half) read_half ts,
        writes-half _ us
            ∙ half_ran-if Writer w (is_egress direction) (wrap_write write_half) write_half us,
        flushed.0,
        flushed.1,
        ended.0,
        ended.1,
      )
