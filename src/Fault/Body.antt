-- ===== src/Fault/Body.antt =====
-- lueur-cli/src/fault: how an injector runs a whole body through its wrapper. The bytes stand in a
-- `Cursor`, the wrapper reads them, and a `ReaderStream` makes chunks of what it reads. Both are
-- interfaces; the loop over the chunks is that of `apply_on_response`.
pub mod Laws
mod Tests
use lueur.Prelude.{
  String, ℕ, suc, ◌-◌, ◌==◌, ◌≡◌, min, Option, none, some, List, [], ◌∷◌, ◌++◌, length, Result, ok,
  err, Run, done, ◌>>=◌, if◌then◌else◌,
}
use lueur.Errors.{ProxyError, io_error, other}
use lueur.Event.{TaskProgressEvent}
use lueur.Fault.{Stream, Outcome, Poll, pending, ready}
use lueur.Proxy.Forward.{Response}

abbrev pub take : ℕ → List ℕ → List ℕ
take n [] = []
take n (x ∷ xs) = if n == 0 then [] else x ∷ take (n - 1) xs

abbrev pub drop : ℕ → List ℕ → List ℕ
drop n [] = []
drop n (x ∷ xs) = if n == 0 then x ∷ xs else drop (n - 1) xs

-- `Cursor<Vec<u8>>` as a stream: a read is never pending, and moves as many bytes as fit.
pub record Cursor : Type 1 where
  pub stream : Stream
  pub of_bytes : List ℕ → stream.S
  pub content : stream.S → List ℕ
  pub content-of_bytes : (bytes : List ℕ) → content (of_bytes bytes) ≡ bytes
  pub poll-outcome :
      (len : ℕ) (s : stream.S) → (stream.poll len s).1 ≡ ready (ok (min len (length (content s))))
  pub poll-content : (len : ℕ) (s : stream.S) → content (stream.poll len s).0 ≡ drop len (content s)

-- What a poll of `ReaderStream::next` makes of a read: a read of 0 bytes is the end.
pub data Item : Type 0 where
  waits : Item
  chunk : ℕ → Item
  end : Item
  failed : String → Item

pub record ReaderStream : Type 0 where
  pub item : Outcome → Item
  pub item-pending : item pending ≡ waits
  pub item-end : item (ready (ok 0)) ≡ end
  pub item-chunk : (n : ℕ) → item (ready (ok (suc n))) ≡ chunk (suc n)
  pub item-failed : (e : String) → item (ready (err e)) ≡ failed e

-- A wrapper as the loop sees it. A turn is what a poll depends on besides the wrapper.
pub record Wrapper (F : Type 0) : Type 1 where
  pub W : Type 0
  pub Turn : Type 0
  -- how many bytes a poll of the wrapped stream asks for
  pub room : W → Turn → ℕ
  pub source : W → List ℕ
  pub poll : W → Turn → Run (W × Outcome × List (TaskProgressEvent F))

-- What was read, and what was reported. `none` says that the turns ran out.
abbrev pub Read : Type 0 → Type 0
Read F = Option (Result (List ℕ) ProxyError) × List (TaskProgressEvent F)

-- The response with what was read for its body.
abbrev pub answered :
    Response → Option (Result (List ℕ) ProxyError) → Option (Result Response ProxyError)
answered resp none = none
answered resp (some (ok body)) = some (ok (record resp { body = body }))
answered resp (some (err e)) = some (err e)

module _ {F : Type 0} (wrapper : Wrapper F) (rs : ReaderStream) where
  open wrapper use {W, Turn, source, poll}
  open rs use {item}

  abbrev pub with_events : List (TaskProgressEvent F) → Run (Read F) → Run (Read F)
  with_events events later = later >>= λ read. done (read.0, events ++ read.1)

  -- `while let Some(chunk) = reader_stream.next().await { buffer.extend_from_slice(&chunk?); }`,
  -- with a turn for each poll.
  unfoldable pub drain : W → List Turn → (buffer : List ℕ) → Run (Read F)
  drain w [] buffer = done (none, [])
  drain w (turn ∷ turns) buffer = do
    polled ← poll w turn
    elim (item polled.1) [
      | waits ↦ with_events polled.2 (drain polled.0 turns buffer)
      | chunk n ↦ with_events polled.2 (drain polled.0 turns (buffer ++ take n (source w)))
      | end ↦ done (some (ok buffer), polled.2)
      | failed e ↦ done (some (err (io_error e)), polled.2)
    ]

  -- The response that `apply_on_response` makes of one whose body it has wrapped.
  unfoldable pub limit_response :
      Response
      → List Turn
      → W
      → Run (Option (Result Response ProxyError) × List (TaskProgressEvent F))
  unfolding drain
  limit_response resp turns w = do read ← drain w turns []; done (answered resp read.0, read.1)

-- The body of a `reqwest::Request`. `as_bytes` gives the bytes of the first kind only; `Body` has no
-- bytes once it wraps a stream. `L` are the wrapped streams.
pub data RequestBody (L : Type 0) : Type 0 where
  bytes : List ℕ → RequestBody L
  streamed : RequestBody L
  limited : L → RequestBody L

pub record ReqwestRequest (L : Type 0) : Type 0 where
  pub body : Option (RequestBody L)

-- `apply_on_request` on a request whose body the injector wraps by `wrap`.
unfoldable pub limit_request :
    {L : Type 0} (try_clone : ReqwestRequest L → Option (ReqwestRequest L)) (wrap : List ℕ → Run L)
    → ReqwestRequest L
    → Run (Result (ReqwestRequest L) ProxyError)
limit_request try_clone wrap request = elim (request.body) [
  | none ↦ done (ok request)
  | some streamed ↦ done (ok request)
  | some (limited l) ↦ done (ok request)
  | some (bytes owned) ↦ do
    l ← wrap owned
    done (elim (try_clone request) [
      | none ↦ err (other "Couldn't clone request")
      | some builder ↦ ok (record builder { body = some (limited l) })
    ])
]
