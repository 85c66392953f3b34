-- ===== src/Scenario/Items/Laws.antt =====
-- The items that a strategy gives: how many, what each holds, and when building them panics.
use lueur.Prelude.{
  ℕ, zero, suc, ◌+◌, ◌-◌, ◌≡◌, refl, Bool, true, false, ◌&&◌, ◌||◌, Option, none, some, List, [],
  ◌∷◌, map, done, panic, ◌>>=◌, arith, ◌==◌, if◌then◌else◌, Bool-cases, inl, inr,
}
use lueur.Prelude.Float.{Float}
use lueur.Types.FaultConfiguration.{
  FaultConfiguration, latency, packet_loss, bandwidth, jitter, dns,
}
use lueur.Scenario.Items.{
  ScenarioItem, ScenarioItemCallStrategy, next_fault, next_faults, next_items, more_items,
  build_item_list,
}

abbrev pub range_from : ℕ → ℕ → List ℕ
range_from i zero = []
range_from i (suc n) = i ∷ range_from (i + 1) n

-- The rounds after the first call that a strategy asks for.
abbrev pub extra_rounds : {F : Type 0} → Option (ScenarioItemCallStrategy F) → ℕ
extra_rounds none = 0
extra_rounds (some strategy) = strategy.count - 1

-- Whether the round loop knows how to change this fault.
abbrev pub can_ramp : {F : Type 0} → FaultConfiguration F → Bool
can_ramp (latency l) = elim (l.mean) [ none ↦ false | some _ ↦ true ]
can_ramp (bandwidth _ _ _ _) = true
can_ramp _ = false

abbrev pub all_ramp : {F : Type 0} → List (FaultConfiguration F) → Bool
all_ramp [] = true
all_ramp (f ∷ fs) = can_ramp f && all_ramp fs

module _ (fl : Float) where
  open fl use {F, add, mul, of_int}

  abbrev pub ramp_mean : F → ℕ → Option F → Option F
  ramp_mean step i none = none
  ramp_mean step i (some m) = some (add m (mul step (of_int i)))

  -- A latency's mean grows by `step` each round; other faults stay.
  abbrev pub ramp : F → ℕ → FaultConfiguration F → FaultConfiguration F
  ramp step i (latency l) = latency (record l { mean = ramp_mean step i l.mean })
  ramp step i f = f

  abbrev pub ramped_item : ScenarioItem F → F → ℕ → ScenarioItem F
  ramped_item source step i = record source {
    context = record (source.context) { faults = map (ramp step i) source.context.faults };
  }

  abbrev pub ramped_items :
      ScenarioItem F → Option (ScenarioItemCallStrategy F) → List (ScenarioItem F)
  ramped_items source none = []
  ramped_items source (some strategy) =
      map (ramped_item source strategy.step) (range_from 1 (strategy.count - 1))

  next_fault_lem :
      (step : F) (i : ℕ) (f : FaultConfiguration F)
      → next_fault fl step i f ≡ (if can_ramp f then done (ramp step i f) else panic)
  unfolding next_fault
  next_fault_lem step i (latency l) = ground arith
  next_fault_lem step i (packet_loss _ _ _ _) = refl
  next_fault_lem step i (bandwidth _ _ _ _) = refl
  next_fault_lem step i (jitter _ _ _) = refl
  next_fault_lem step i (dns _ _) = refl

  next_faults_lem :
      (step : F) (i : ℕ) (fs : List (FaultConfiguration F))
      → next_faults fl step i fs ≡ (if all_ramp fs then done (map (ramp step i) fs) else panic)
  unfolding next_faults
  next_faults_lem step i [] = refl
  next_faults_lem step i (f ∷ fs) =
      ground (arith, next_fault_lem step i f, next_faults_lem step i fs)

  next_items_lem :
      (source : ScenarioItem F) (step : F) (i n : ℕ)
      → next_items fl source step i n ≡ (
          if (n == 0) || all_ramp source.context.faults
          then done (map (ramped_item source step) (range_from i n))
          else panic)
  unfolding next_items
  next_items_lem source step i zero = refl
  next_items_lem source step i (suc n) = elim (Bool-cases (all_ramp source.context.faults)) [
    | inl good ↦
        ground (
          arith,
          next_faults_lem step i source.context.faults,
          next_items_lem source step (i + 1) n,
        )
    | inr bad ↦ ground (arith, next_faults_lem step i source.context.faults)
  ]

  -- The list starts with the item as it was given; round `k` adds a copy in which each latency's
  -- mean is `k` steps higher. It panics exactly when there is such a round and some fault is a
  -- latency with no mean, a packet loss, a jitter or a DNS fault.
  pub build_item_list_lem :
      (source : ScenarioItem F)
      → build_item_list fl source ≡ (
          if (extra_rounds source.context.strategy == 0) || all_ramp source.context.faults
          then done (source ∷ ramped_items source source.context.strategy)
          else panic)
  unfolding build_item_list
  build_item_list_lem source = go source.context.strategy
    where
      go :
          (strategy : Option (ScenarioItemCallStrategy F))
          → (do items ← more_items fl source strategy; done (source ∷ items)) ≡ (
              if (extra_rounds strategy == 0) || all_ramp source.context.faults
              then done (source ∷ ramped_items source strategy)
              else panic)
      go none = refl
      go (some strategy) =
          ground (arith, next_items_lem source strategy.step 1 (strategy.count - 1))
