-- ===== src/Fault/Bandwidth.antt =====
-- lueur-cli/src/fault/bandwidth.rs: `BandwidthLimitedWrite` and `BandwidthLimitedRead`. The rate
-- limiter of the `governor` crate is an interface.
pub mod Laws
pub mod Body
pub mod Inject
use lueur.Prelude.{
  String, ℕ, ◌%◌, ◌^◌, ◌≤◌, ◌≡◌, ◌==◌, min, Bool, true, false, Option, none, some, List, [], ◌∷◌,
  Result, ok, err, if◌then◌else◌,
}
use lueur.Types.Direction
use lueur.Types.Direction.{Direction}
use lueur.Types.StreamSide.{StreamSide}
use lueur.Types.BandwidthUnit.{to_bytes_per_second}
use lueur.Event.{FaultEvent, TaskProgressEvent, ProxyTaskEvent}
use lueur.Config.{BandwidthSettings}
use lueur.Fault.{Stream, Outcome, Poll, pending, ready}
use lueur.Fault.Latency.{applied}

-- Whether a call of `check_n` found enough cells: the inner result of the nested one.
pub data Cells : Type 0 where
  granted not_until : Cells

-- `check_n` fails with `InsufficientCapacity` only for more cells than the quota's burst.
pub record RateLimiter : Type 1 where
  pub L : Type 0
  pub Insufficient : Type 0
  pub Delay : Type 0
  pub direct : (per_second : ℕ) → L
  pub burst : L → ℕ
  pub check_n : L → (now n : ℕ) → L × Result Cells Insufficient
  -- the future of `until_ready`, and a poll of it
  pub until_ready : Delay
  pub poll_delay : Delay → L → (now : ℕ) → L × Bool
  pub burst-direct : (per_second : ℕ) → burst (direct per_second) ≡ per_second
  pub burst-check_n : (l : L) (now n : ℕ) → burst (check_n l now n).0 ≡ burst l
  pub check_n-ok : (l : L) (now n : ℕ) → n ≤ burst l → (c : Cells) × ((check_n l now n).1 ≡ ok c)

module _ (F : Type 0) (inner : Stream) (limiters : RateLimiter) where
  open inner use {S, poll}
  open limiters use {L, Insufficient, Delay, direct, check_n, until_ready, poll_delay}

  -- One wrapper: `direction` tells the write half (egress) from the read half (ingress).
  pub record BandwidthStream : Type 0 where
    pub stream : S
    pub limiter : Option L
    pub delay : Option Delay
    pub event : Option ProxyTaskEvent
    pub max_size : ℕ
    pub side : StreamSide

  pub record Polled : Type 0 where
    pub after : BandwidthStream
    pub outcome : Outcome
    pub events : List (TaskProgressEvent F)

  -- `rate_bps as u32`, in `NonZeroU32::new`.
  non_zero_u32 : ℕ → Option ℕ
  non_zero_u32 n = if n % 2 ^ 32 == 0 then none else some (n % 2 ^ 32)

  -- `new`; `none` is `Err(inner)`.
  unfoldable pub new : S → BandwidthSettings → Option ProxyTaskEvent → Option BandwidthStream
  unfolding non_zero_u32
  new stream settings event =
      let rate_bps = to_bytes_per_second settings.bandwidth_unit settings.bandwidth_rate in
      if rate_bps == 0 then none else elim (non_zero_u32 rate_bps) [
        | none ↦ none
        | some quota ↦ some (record {
          stream = stream;
          limiter = some (direct quota);
          delay = none;
          event = event;
          max_size = rate_bps;
          side = settings.side;
        })
      ]

  still : BandwidthStream → Outcome → Polled
  still st outcome = record { after = st; outcome = outcome; events = [] }

  -- What a poll reports that moved `n` bytes.
  moved : BandwidthStream → Direction → (now : ℕ) → Outcome → List (TaskProgressEvent F)
  moved st direction now (ready (ok n)) =
      applied st.event now (FaultEvent.bandwidth direction st.side (some n))
  moved st direction now _ = []

  -- A poll of the wrapped stream, once the cells were checked.
  transfer : BandwidthStream → Direction → (now len : ℕ) → Polled
  unfolding moved
  transfer st direction now len =
      let (stream, outcome) = poll len st.stream in
      record {
        after = record st { stream = stream };
        outcome = outcome;
        events = moved st direction now outcome;
      }

  -- `InsufficientCapacity`: the delay is made if there is none, and polled.
  hold : BandwidthStream → L → Delay → (now : ℕ) → Polled
  unfolding still
  hold st l d now =
      let (l', over) = poll_delay d l now in
      still (record st { limiter = some l'; delay = if over then none else some d }) pending

  abbrev delay_of : Option Delay → Delay
  delay_of none = until_ready
  delay_of (some d) = d

  check : BandwidthStream → L → Direction → (now permits len : ℕ) → Polled
  unfolding transfer hold
  check st l direction now permits len =
      let (l', answer) = check_n l now permits in
      elim answer [
        | ok _ ↦ transfer (record st { limiter = some l' }) direction now len
        | err _ ↦ hold (record st { limiter = some l' }) l' (delay_of st.delay) now
      ]

  -- `len` bytes are asked for, and `transferred` is what the wrapped stream is polled with.
  limit : BandwidthStream → Direction → (now len : ℕ) → (transferred : ℕ → ℕ) → Polled
  unfolding still transfer check non_zero_u32
  limit st direction now len transferred = elim (st.limiter) [
    | none ↦
        let (stream, outcome) = poll len st.stream in still (record st { stream = stream }) outcome
    | some l ↦
        let size = min st.max_size len in
        if size == 0 then still st (ready (ok 0)) else elim (non_zero_u32 size) [
          | none ↦ still st (ready (ok 0))
          | some permits ↦ check st l direction now permits (transferred size)
        ]
  ]

  -- The wrapped stream is given the whole of `buf`.
  pub poll_write : BandwidthStream → (now len : ℕ) → Polled
  unfolding limit
  poll_write st now len = limit st Direction.egress now len (λ size. len)

  -- The wrapped stream is given a buffer of `to_read` bytes.
  unfoldable pub poll_read : BandwidthStream → (now len : ℕ) → Polled
  unfolding limit
  poll_read st now len = limit st Direction.ingress now len (λ size. size)
