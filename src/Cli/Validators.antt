-- ===== src/Cli/Validators.antt =====
-- The validators of lueur-cli/src/cli.rs.
use lueur.Prelude.{
  String, ℕ, ltb, leb, ◌^◌, Bool, ◌&&◌, Option, none, some, Result, ok, err, if◌then◌else◌,
}
use lueur.Prelude.Float.{Float}

-- `str::parse` for a floating-point number, and for a natural number.
pub record Parsers (fl : Float) : Type 0 where
  pub parse_f64 : String → Option fl.F
  pub parse_nat : String → Option ℕ

-- A value that was parsed and satisfies the test; else the one error or the other.
abbrev pub checked :
    {A : Type 0} → Option A → (A → Bool) → (wrong invalid : String) → Result A String
checked none test wrong invalid = err invalid
checked (some v) test wrong invalid = if test v then ok v else err wrong

module _ (fl : Float) (p : Parsers fl) where
  open fl use {F, lit, lt, le}

  -- `str::parse` for an unsigned integer of `w` bits.
  unfoldable pub parse_unsigned : (w : ℕ) → String → Option ℕ
  parse_unsigned w val = elim (p.parse_nat val) [
    | none ↦ none
    | some n ↦ if ltb n (2 ^ w) then some n else none
  ]

  unfoldable pub validate_positive_f64 : String → Result F String
  validate_positive_f64 val =
      checked (p.parse_f64 val) (λ v. lt (lit 0 0) v) "Value must be a positive number."
        "Invalid floating-point number."

  unfoldable pub validate_non_negative_f64 : String → Result F String
  validate_non_negative_f64 val =
      checked (p.parse_f64 val) (λ v. le (lit 0 0) v) "Value must be a non-negative number."
        "Invalid floating-point number."

  unfoldable pub validate_fraction : String → Result F String
  validate_fraction val =
      checked (p.parse_f64 val) (λ v. le (lit 0 0) v && le v (lit 1 0))
        "Value must be between 0.0 and 1.0." "Invalid floating-point number."

  unfoldable pub positive : (w : ℕ) → String → Result ℕ String
  unfolding parse_unsigned
  positive w val =
      checked (parse_unsigned w val) (λ v. ltb 0 v) "Value must be a positive integer."
        "Invalid unsigned integer."

  unfoldable pub validate_positive_u32 : String → Result ℕ String
  unfolding positive
  validate_positive_u32 = positive 32

  unfoldable pub validate_positive_u8 : String → Result ℕ String
  unfolding positive
  validate_positive_u8 = positive 8

  unfoldable pub validate_positive_usize : String → Result ℕ String
  unfolding positive
  validate_positive_usize = positive 64

  unfoldable pub validate_probability : String → Result F String
  validate_probability val =
      let e : String = "Probability must be a float between 0.0 and 1.0" in
      checked (p.parse_f64 val) (λ f. le (lit 0 0) f && le f (lit 1 0)) e e

  unfoldable pub validate_http_status : String → Result ℕ String
  unfolding parse_unsigned
  validate_http_status val =
      let e : String = "HTTP status code must be between 100 and 599" in
      checked (parse_unsigned 16 val) (λ code. leb 100 code && leb code 599) e e
