-- ===== src/Scenario/Items/Count.antt =====
-- The number that the progress bar announces against the items that are built.
use lueur.Prelude.{
  String, ℕ, zero, suc, ◌+◌, ◌-◌, ◌%◌, ◌≤◌, ◌<◌, ◌^◌, ◌≡◌, refl, ◌∙◌, Option, none, some, List, [],
  ◌∷◌, done, arith, length, All, map,
}
use lueur.Prelude.Float.{Float}
use lueur.Scenario.Items.{
  ScenarioItem, ScenarioItemCallStrategy, Scenario, strategy_count, count_from,
  count_scenario_items, build_item_list,
}
use lueur.Scenario.Items.Laws.{range_from, ramped_items, extra_rounds, build_item_list_lem}

length-map-range_from {ℓ} : {A : Type ℓ} (f : ℕ → A) (i n : ℕ) → length (map f (range_from i n)) ≡ n
length-map-range_from f i zero = refl
length-map-range_from f i (suc n) = omega (arith, length-map-range_from f (i + 1) n)

abbrev pub total_length {ℓ} : {A : Type ℓ} → List (List A) → ℕ
total_length [] = 0
total_length (l ∷ ls) = length l + total_length ls

module _ (fl : Float) where
  open fl use {F}

  -- `lists` holds, in order, what `build_item_list` returns for each item.
  abbrev pub Builds : List (ScenarioItem F) → List (List (ScenarioItem F)) → Type 0
  Builds [] [] = Unit
  Builds (i ∷ is) (l ∷ ls) = (build_item_list fl i ≡ done l) × Builds is ls
  Builds _ _ = ⊥

  length-ramped_items :
      (source : ScenarioItem F) (strategy : Option (ScenarioItemCallStrategy F))
      → 1 ≤ strategy_count strategy
      → suc (length (ramped_items fl source strategy)) ≡ strategy_count strategy
  length-ramped_items source none h = refl
  length-ramped_items source (some st) h =
      omega (arith, length-map-range_from {A = ScenarioItem F} _ 1 (st.count - 1))

  length-build_item_list :
      (source : ScenarioItem F) (l : List (ScenarioItem F))
      → build_item_list fl source ≡ done l
      → 1 ≤ strategy_count source.context.strategy
      → length l ≡ strategy_count source.context.strategy
  length-build_item_list source l e h =
      ground
        (arith, build_item_list_lem fl source, length-ramped_items source source.context.strategy)

  count_from_lem :
      (acc : ℕ) (is : List (ScenarioItem F)) (ls : List (List (ScenarioItem F)))
      → Builds is ls
      → All (λ (i : ScenarioItem F). 1 ≤ strategy_count i.context.strategy) is
      → acc + total_length ls < 2 ^ 64
      → count_from acc is ≡ acc + total_length ls
  unfolding count_from
  count_from_lem acc [] [] b h lt = omega arith
  count_from_lem acc (i ∷ is) (l ∷ ls) (e, b) (h, hs) lt =
      let n = length-build_item_list i l e h in
      let w : (acc + strategy_count i.context.strategy) % 2 ^ 64 ≡ acc + length l = omega arith in
      rw w (count_from_lem (acc + length l) is ls b hs (omega arith) ∙ omega arith)
  count_from_lem acc [] (_ ∷ _) b h lt = absurd b
  count_from_lem acc (_ ∷ _) [] b h lt = absurd b

  -- If every strategy asks for at least one call, building no item panics, and fewer than 2^64
  -- items are built in all, then the number announced is the number of items built.
  pub count_scenario_items_lem :
      (scenario : Scenario F) (lists : List (List (ScenarioItem F)))
      → Builds scenario.scenarios lists
      → All (λ (i : ScenarioItem F). 1 ≤ strategy_count i.context.strategy) scenario.scenarios
      → total_length lists < 2 ^ 64
      → count_scenario_items scenario ≡ total_length lists
  unfolding count_scenario_items
  count_scenario_items_lem scenario lists b h lt =
      count_from_lem 0 scenario.scenarios lists b h (omega arith) ∙ omega arith

  ramped_items-zero :
      (source : ScenarioItem F) (strategy : Option (ScenarioItemCallStrategy F))
      → strategy_count strategy ≡ 0
      → (extra_rounds strategy ≡ 0) × (ramped_items fl source strategy ≡ [])
  ramped_items-zero source none h = absurd (omega arith)
  ramped_items-zero source (some st) h = (omega arith, rw h)

  -- An item whose strategy has the count 0 is still run once, though it is announced as none.
  pub zero_count_runs_once :
      (source : ScenarioItem F) (title : String)
      → strategy_count source.context.strategy ≡ 0
      → (build_item_list fl source ≡ done (source ∷ []))
        × (count_scenario_items
              (record { title = title; description = none; scenarios = source ∷ [] })
            ≡ 0)
  unfolding count_scenario_items count_from
  zero_count_runs_once source title h = (
    ground
        (arith, build_item_list_lem fl source, ramped_items-zero source source.context.strategy h),
    omega arith,
  )
