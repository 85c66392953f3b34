-- ===== src/Prelude/Float.antt =====
-- `f64` as an interface: its values and the operations that the program calls. No law is part of
-- it; a theorem that needs one names it as a hypothesis.
use Prim.Native.Nat.{ℕ}
use mathlib.Core.Bool.{Bool}

pub record Float : Type 1 where
  pub F : Type 0
  -- the decimal literal `digits / 10 ^ places`
  pub lit : (digits places : ℕ) → F
  -- `n as f64`
  pub of_int : ℕ → F
  pub add : F → F → F
  pub sub : F → F → F
  pub mul : F → F → F
  pub div : F → F → F
  pub lt : F → F → Bool
  pub le : F → F → Bool
  -- `x.round() as usize`
  pub round : F → ℕ
  -- `x.floor() as u64`
  pub floor : F → ℕ
  pub max : F → F → F
  pub min : F → F → F
  -- `Duration::from_secs_f64`, in nanoseconds
  pub from_secs : F → ℕ
