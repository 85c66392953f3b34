-- ===== src/Prelude/Fixed.antt =====
-- Numbers in thousandths, at which the theorems about `Float` are tried out. Subtraction stops at 0.
use Prim.Native.Nat.{ℕ, ◌+◌, ◌-◌, ◌*◌, ◌/◌, ◌^◌}
use lueur.Prelude.Tests.{ltb, leb, if◌then◌else◌}
use lueur.Prelude.Float.{Float}

abbrev pub thousandths : Float
thousandths = record {
  F = ℕ;
  lit = λ digits places. digits * 1000 / 10 ^ places;
  of_int = λ n. n * 1000;
  add = λ a b. a + b;
  sub = λ a b. a - b;
  mul = λ a b. a * b / 1000;
  div = λ a b. a * 1000 / b;
  lt = ltb;
  le = leb;
  round = λ a. (a + 500) / 1000;
  floor = λ a. a / 1000;
  max = λ a b. if ltb a b then b else a;
  min = λ a b. if ltb b a then b else a;
  from_secs = λ a. a * 1_000_000;
}
