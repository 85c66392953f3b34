-- ===== src/Prelude/Outcomes.antt =====
-- Rust's `Result`, and calls that may panic (`unwrap`, `todo!`, an index out of range).
use mathlib.Core.Path.{◌≡◌, refl}
use mathlib.Core.Logic.{◌⊎◌, inl, inr}
use mathlib.Core.Bool.{Bool, true, false}
use mathlib.Core.Option.{Option, none, some}

pub data Result {ℓ κ} (A : Type ℓ) (E : Type κ) : Type (ℓ ⊔ κ) where
  ok : A → Result A E
  err : E → Result A E

pub data Run {ℓ} (A : Type ℓ) : Type ℓ where
  done : A → Run A
  panic : Run A

abbrev pub unwrap {ℓ} : {A : Type ℓ} → Option A → Run A
unwrap none = panic
unwrap (some a) = done a

-- A call that panics ends what called it.
infixl 5 ◌>>=◌
abbrev pub ◌>>=◌ {ℓ κ} : {B : Type κ} {A : Type ℓ} → Run A → (A → Run B) → Run B
panic >>= next = panic
done value >>= next = next value

-- A call that did not panic: what its first step gave, and the rest.
pub bind_done {ℓ κ} :
    {A : Type ℓ} {B : Type κ} (r : Run A) (k : A → Run B) (b : B)
    → (r >>= k) ≡ done b
    → (a : A) × (r ≡ done a) × (k a ≡ done b)
bind_done panic k b e = absurd (cc e)
bind_done (done a) k b e = (a, refl, e)

pub Result-cases {ℓ κ} :
    {A : Type ℓ} {E : Type κ} (r : Result A E) → ((a : A) × (r ≡ ok a)) ⊎ ((e : E) × (r ≡ err e))
Result-cases (ok a) = inl (a, refl)
Result-cases (err e) = inr (e, refl)

abbrev pub is_ok {ℓ κ} : {A : Type ℓ} {E : Type κ} → Result A E → Bool
is_ok (ok a) = true
is_ok (err e) = false

pub Run-cases {ℓ} : {A : Type ℓ} (r : Run A) → (r ≡ panic) ⊎ ((a : A) × (r ≡ done a))
Run-cases panic = inl refl
Run-cases (done a) = inr (a, refl)

-- `unwrap` on a call that returns a `Result`.
abbrev pub unwrap_ok : {A E : Type 0} → Run (Result A E) → Run A
unwrap_ok panic = panic
unwrap_ok (done (ok a)) = done a
unwrap_ok (done (err e)) = panic

pub unwrap_ok-done :
    {A E : Type 0} (r : Run (Result A E)) (a : A) → unwrap_ok r ≡ done a → r ≡ done (ok a)
unwrap_ok-done panic a e = absurd (cc e)
unwrap_ok-done (done (ok x)) a e = cc e
unwrap_ok-done (done (err x)) a e = absurd (cc e)
