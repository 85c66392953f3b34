-- ===== src/Fault/PacketLoss/Laws.antt =====
-- The Markov chain never runs out of its tables, and moves one step at a time.
use lueur.Prelude.{
  ℕ, ◌+◌, ◌≤◌, ◌<◌, ◌≡◌, refl, true, false, none, some, List, [], ◌∷◌, done, if◌then◌else◌, arith,
  ok, get_elem?, Bool-cases, inl, inr,
}
use lueur.Prelude.Float.{Float}
use lueur.Event.{FaultEvent}
use lueur.Fault.Latency.{applied}
use lueur.Fault.{Stream, ready}
use lueur.Fault.PacketLoss.{
  MultiState, excellent, good, fair, poor, bad, from_index, to_index, transition_matrix,
  loss_probabilities, choose, transition, PacketLossStream, Polled, finish, poll_op,
}

to_index-from_index : (i : ℕ) → i < 5 → to_index (from_index i) ≡ i
unfolding from_index to_index
to_index-from_index i lt = ground arith

-- At most one apart, in the order from excellent to bad.
abbrev pub Near : ℕ → ℕ → Type 0
Near i j = (i ≤ j + 1) × (j ≤ i + 1)

module _ (fl : Float) where
  open fl use {F, lit, add, lt}

  abbrev row : MultiState → List F
  row s = elim (get_elem? (transition_matrix fl) (to_index s)) [ none ↦ [] | some r ↦ r ]

  abbrev chosen : MultiState → F → ℕ
  chosen s r = choose fl r (lit 0 1) 0 (to_index s) (row s)

  -- The sum after the first entries of a row.
  abbrev sum : F → List F → F
  sum x [] = x
  sum x (p ∷ ps) = sum (add x p) ps

  chosen-Near :
      (s : MultiState) (r : F)
      → lt r (lit 0 1) ≡ false
      → ((x y : F) → lt y (add x (lit 0 1)) ≡ lt y x)
      → Near (to_index s) (chosen s r) × (chosen s r < 5)
  unfolding choose transition_matrix to_index
  chosen-Near excellent r z az =
      let c = add (add (lit 0 1) (lit 9 1)) (lit 1 1) in
      ground (arith, az c r, az (add c (lit 0 1)) r, az (add (add c (lit 0 1)) (lit 0 1)) r)
  chosen-Near good r z az =
      let c = add (add (add (lit 0 1) (lit 5 2)) (lit 9 1)) (lit 5 2) in
      ground (arith, az c r, az (add c (lit 0 1)) r)
  chosen-Near fair r z az =
      let o = lit 0 1 in
      ground (arith, az o r, az (add (add (add (add o o) (lit 1 1)) (lit 8 1)) (lit 1 1)) r)
  chosen-Near poor r z az = let o = lit 0 1 in ground (arith, az o r, az (add o o) r)
  chosen-Near bad r z az =
      let o = lit 0 1 in ground (arith, az o r, az (add o o) r, az (add (add o o) o) r)

  abbrev pub loss_of : MultiState → F
  loss_of excellent = lit 0 1
  loss_of good = lit 1 2
  loss_of fair = lit 5 2
  loss_of poor = lit 1 1
  loss_of bad = lit 2 1

  loss-get_elem? :
      (s : MultiState) → get_elem? (loss_probabilities fl) (to_index s) ≡ some (loss_of s)
  unfolding loss_probabilities to_index
  loss-get_elem? excellent = refl
  loss-get_elem? good = refl
  loss-get_elem? fair = refl
  loss-get_elem? poor = refl
  loss-get_elem? bad = refl

  row-get_elem? : (s : MultiState) → get_elem? (transition_matrix fl) (to_index s) ≡ some (row s)
  unfolding transition_matrix to_index
  row-get_elem? excellent = refl
  row-get_elem? good = refl
  row-get_elem? fair = refl
  row-get_elem? poor = refl
  row-get_elem? bad = refl

  -- From every state, for every number `r` that is not below 0, if adding the literal 0.0 to a
  -- number changes no comparison with it: neither table is indexed out of range, the chain moves to the same state or to a
  -- neighbour, and the operation is dropped exactly if `c` is below the new state's probability.
  pub transition_lem :
      (s : MultiState) (r c : F)
      → lt r (lit 0 1) ≡ false
      → ((x y : F) → lt y (add x (lit 0 1)) ≡ lt y x)
      → (s' : MultiState) × (transition fl s r c ≡ done (s', lt c (loss_of s')))
        × Near (to_index s) (to_index s')
  unfolding transition
  transition_lem s r c z az =
      let (near, small) = chosen-Near s r z az in
      let same = to_index-from_index (chosen s r) small in
      let loss = loss-get_elem? (from_index (chosen s r)) in
      (
        from_index (chosen s r),
        ground (arith, row-get_elem? s, loss, same),
        ground (arith, same, near),
      )

  module _ (inner : Stream) where
    open inner use {S, poll}

    -- If the first number drawn is not below 0, and if adding the literal 0.0 to a number changes no
    -- comparison with it, a poll never panics, and the chain stays or moves to a neighbour. If the number `c` is below the
    -- loss probability of the state that the chain moves to, the poll moves 0 bytes without
    -- touching the wrapped stream; otherwise it is a poll of the wrapped stream, which reports no
    -- fault.
    pub poll_op_lem :
        (st : PacketLossStream fl inner) (now len : ℕ) (r c : F)
        → lt r (lit 0 1) ≡ false
        → ((x y : F) → lt y (add x (lit 0 1)) ≡ lt y x)
        → (p : Polled fl inner) × (poll_op fl inner st now len r c ≡ done p)
          × Near (to_index st.state) (to_index p.after.state)
          × (p.outcome
              ≡ (if lt c (loss_of p.after.state) then ready (ok 0) else (poll len st.stream).1))
          × (p.after.stream
              ≡ (if lt c (loss_of p.after.state) then st.stream else (poll len st.stream).0))
          × (p.events ≡ (
              if lt c (loss_of p.after.state)
              then applied st.event now (FaultEvent.packet_loss st.direction st.side)
              else []))
    unfolding poll_op finish
    poll_op_lem st now len r c z az =
        let (s', moves, near) = transition_lem st.state r c z az in
        elim (Bool-cases (lt c (loss_of s'))) [
          | inl drops ↦ (
            finish fl inner (record st { state = s' }) now len true,
            ground (arith, moves),
            near,
            ground arith,
            ground arith,
            ground arith,
          )
          | inr passes ↦ (
            finish fl inner (record st { state = s' }) now len false,
            ground (arith, moves),
            near,
            ground arith,
            ground arith,
            ground arith,
          )
        ]
