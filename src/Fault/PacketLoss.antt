-- ===== src/Fault/PacketLoss.antt =====
-- lueur-cli/src/fault/packet_loss.rs: the Markov chain, and the polls of `PacketLossLimitedRead` and
-- `PacketLossLimitedWrite`, which differ in their direction. An index out of range panics.
pub mod Laws
pub mod Body
pub mod Inject
use lueur.Prelude.{
  ℕ, ◌+◌, ◌==◌, true, false, Option, none, some, List, [], ◌∷◌, Bool, Run, done, panic, ◌>>=◌,
  unwrap, get_elem?, ok, if◌then◌else◌,
}
use lueur.Prelude.Float.{Float}
use lueur.Types.Direction.{Direction}
use lueur.Types.StreamSide.{StreamSide}
use lueur.Event.{FaultEvent, TaskProgressEvent, ProxyTaskEvent}
use lueur.Fault.{Stream, Outcome, Poll, ready}
use lueur.Fault.Latency.{applied}

pub data MultiState : Type 0 where
  excellent good fair poor bad : MultiState

pub from_index : ℕ → MultiState
from_index index =
    if index == 0
    then excellent
    else if index == 1
    then good
    else if index == 2
    then fair
    else if index == 3
    then poor
    else if index == 4
    then bad
    else good

pub to_index : MultiState → ℕ
to_index excellent = 0
to_index good = 1
to_index fair = 2
to_index poor = 3
to_index bad = 4

module _ (fl : Float) where
  open fl use {F, lit, add, lt}

  -- `PacketLossStrategy::default`
  pub transition_matrix : List (List F)
  transition_matrix =
      (lit 9 1 ∷ lit 1 1 ∷ lit 0 1 ∷ lit 0 1 ∷ lit 0 1 ∷ [])
      ∷ (lit 5 2 ∷ lit 9 1 ∷ lit 5 2 ∷ lit 0 1 ∷ lit 0 1 ∷ [])
      ∷ (lit 0 1 ∷ lit 1 1 ∷ lit 8 1 ∷ lit 1 1 ∷ lit 0 1 ∷ [])
      ∷ (lit 0 1 ∷ lit 0 1 ∷ lit 2 1 ∷ lit 7 1 ∷ lit 1 1 ∷ [])
      ∷ (lit 0 1 ∷ lit 0 1 ∷ lit 0 1 ∷ lit 3 1 ∷ lit 7 1 ∷ [])
      ∷ []

  pub loss_probabilities : List F
  loss_probabilities = lit 0 1 ∷ lit 1 2 ∷ lit 5 2 ∷ lit 1 1 ∷ lit 2 1 ∷ []

  -- The loop over the row: the index at which the sum passes `rand_val`, and else `current`.
  unfoldable pub choose : (rand_val cumulative : F) (i current : ℕ) → List F → ℕ
  choose rand_val cumulative i current [] = current
  choose rand_val cumulative i current (prob ∷ probs) =
      let later = choose rand_val (add cumulative prob) (i + 1) current probs in
      if lt rand_val (add cumulative prob) then i else later

  -- The next state, and whether to drop, from the two numbers drawn.
  pub transition : MultiState → (rand_val chance : F) → Run (MultiState × Bool)
  unfolding choose to_index from_index transition_matrix loss_probabilities
  transition state rand_val chance = do
    let current_index = to_index state
    transition_probs ← unwrap (get_elem? transition_matrix current_index)
    let new_state = choose rand_val (lit 0 1) 0 current_index transition_probs
    loss ← unwrap (get_elem? loss_probabilities new_state)
    done (from_index new_state, lt chance loss)

  module _ (inner : Stream) where
    open inner use {S, poll}

    pub record PacketLossStream : Type 0 where
      pub stream : S
      pub state : MultiState
      pub direction : Direction
      pub side : StreamSide
      pub event : Option ProxyTaskEvent

    pub record Polled : Type 0 where
      pub after : PacketLossStream
      pub outcome : Outcome
      pub events : List (TaskProgressEvent F)

    -- The rest of a poll, once it is known whether to drop: a dropped operation moves 0 bytes.
    finish : PacketLossStream → (now len : ℕ) → Bool → Polled
    finish st now len true = record {
      after = st;
      outcome = ready (ok 0);
      events = applied st.event now (FaultEvent.packet_loss st.direction st.side);
    }
    finish st now len false =
        let (stream, outcome) = poll len st.stream in
        record { after = record st { stream = stream }; outcome = outcome; events = [] }

    unfoldable pub poll_op : PacketLossStream → (now len : ℕ) (rand_val chance : F) → Run Polled
    unfolding transition finish
    poll_op st now len rand_val chance = do
      (state, should_drop) ← transition st.state rand_val chance
      done (finish (record st { state = state }) now len should_drop)

    -- `PacketLossLimitedRead::new` and `PacketLossLimitedWrite::new`.
    unfoldable pub new : S → Direction → StreamSide → Option ProxyTaskEvent → PacketLossStream
    new stream direction side event = record {
      stream = stream;
      state = good;
      direction = direction;
      side = side;
      event = event;
    }
