-- ===== src/Fault/Latency/Delay.antt =====
-- `LatencyInjector::get_delay`. The distributions of `rand_distr` and the generator are parameters;
-- `fuel` bounds the samples of one loop.
use lueur.Prelude.{
  ℕ, zero, suc, ◌+◌, ◌*◌, ◌<◌, ◌≡◌, refl, Bool, true, false, not, ◌&&◌, Option, none, some, Result,
  is_ok, is_some, ok, err, Run, done, panic, ◌>>=◌, unwrap_ok, String, if◌then◌else◌, arith,
}
use lueur.Prelude.Float.{Float}
use lueur.Types.LatencyDistribution.{LatencyDistribution, uniform, normal, pareto, pareto_normal}
use lueur.Config.{LatencySettings}

-- `Normal::new` and `Pareto::new` return an error for some parameters, and `Uniform::new` panics for
-- some. A sample is drawn with the generator, which moves on.
pub record Rand (F : Type 0) : Type 1 where
  pub R : Type 0
  pub Normal : Type 0
  pub Pareto : Type 0
  pub Uniform : Type 0
  pub new_normal : (mean std_dev : F) → Result Normal String
  pub new_pareto : (scale shape : F) → Result Pareto String
  pub new_uniform : (low high : F) → Run Uniform
  pub sample_normal : Normal → R → F × R
  pub sample_pareto : Pareto → R → F × R
  pub sample_uniform : Uniform → R → F × R

module _ (fl : Float) where
  open fl use {F, lit, of_int, add, sub, mul, lt, round, floor}

  -- Whole milliseconds and the rest in nanoseconds.
  pub duration_of : F → ℕ
  duration_of sample =
      let millis = floor sample in
      millis * 1_000_000 + round (mul (sub sample (of_int millis)) (lit 10_000_000 1))

  module _ (rand : Rand F) where
    open rand use {
      R, new_normal, new_pareto, new_uniform, sample_normal, sample_pareto, sample_uniform,
    }

    -- `while sample < 0.0 { sample = .. }`; `none` if that takes more than `fuel` samples.
    pub draw : (sample : R → F × R) → (fuel : ℕ) → R → Option (F × R)
    draw sample zero rng = none
    draw sample (suc fuel) rng =
        let drawn = sample rng in
        let later = draw sample fuel drawn.1 in if lt drawn.0 (lit 0 1) then later else some drawn

    abbrev timed : Option (F × R) → Option (ℕ × R)
    timed none = none
    timed (some (sample, rng)) = some (duration_of sample, rng)

    abbrev then_add : F → Option (F × R) → Option (ℕ × R)
    then_add first none = none
    then_add first (some (sample, rng)) = some (duration_of (add first sample), rng)

    -- The delay and the generator after it; `none` if a loop has not ended.
    unfoldable pub get_delay : LatencySettings F → (fuel : ℕ) → R → Run (Option (ℕ × R))
    unfolding draw duration_of
    get_delay settings fuel rng = elim (settings.distribution) [
      | normal ↦ do
        d ← unwrap_ok (done (new_normal settings.latency_mean settings.latency_stddev))
        done (timed (draw (sample_normal d) fuel rng))
      | pareto ↦ do
        d ← unwrap_ok (done (new_pareto settings.latency_scale settings.latency_shape))
        done (timed (draw (sample_pareto d) fuel rng))
      | pareto_normal ↦ do
        p ← unwrap_ok (done (new_pareto settings.latency_scale settings.latency_shape))
        elim (draw (sample_pareto p) fuel rng) [
          | none ↦ done none
          | some (sample, rng') ↦ do
            n ← unwrap_ok (done (new_normal settings.latency_mean settings.latency_stddev))
            done (then_add sample (draw (sample_normal n) fuel rng'))
        ]
      | uniform ↦ do
        d ← new_uniform settings.latency_min settings.latency_max
        done (timed (draw (sample_uniform d) fuel rng))
    ]

    abbrev is_done : {A : Type 0} → Run A → Bool
    is_done panic = false
    is_done (done a) = true

    -- A distribution that is constructed does not take its parameters. `ParetoNormal` constructs its
    -- second one when the loop of the first has ended.
    abbrev pub refused : LatencySettings F → (fuel : ℕ) → R → Bool
    refused settings fuel rng = elim (settings.distribution) [
      | normal ↦ not (is_ok (new_normal settings.latency_mean settings.latency_stddev))
      | pareto ↦ not (is_ok (new_pareto settings.latency_scale settings.latency_shape))
      | pareto_normal ↦ elim (new_pareto settings.latency_scale settings.latency_shape) [
        | err e ↦ true
        | ok p ↦
            is_some (draw (sample_pareto p) fuel rng)
            && not (is_ok (new_normal settings.latency_mean settings.latency_stddev))
      ]
      | uniform ↦ not (is_done (new_uniform settings.latency_min settings.latency_max))
    ]

    -- The sample after `n` others.
    abbrev nth : (sample : R → F × R) (n : ℕ) → R → F × R
    nth sample zero rng = sample rng
    nth sample (suc n) rng = nth sample n (sample rng).1

    -- A loop ends at the first sample that is not negative, with any fuel above its place.
    pub draw-ends :
        (sample : R → F × R) (n fuel : ℕ) (rng : R)
        → ((i : ℕ) → i < n → lt (nth sample i rng).0 (lit 0 1) ≡ true)
        → lt (nth sample n rng).0 (lit 0 1) ≡ false
        → n < fuel
        → draw sample fuel rng ≡ some (nth sample n rng)
    unfolding draw
    draw-ends sample n zero rng negative ends enough = absurd (omega arith)
    draw-ends sample zero (suc fuel) rng negative ends enough = rw ends refl
    draw-ends sample (suc n) (suc fuel) rng negative ends enough = rw (negative 0 (omega arith)) (
        draw-ends sample n fuel (sample rng).1 (λ i below. negative (suc i) (omega arith)) ends
          (omega arith))
