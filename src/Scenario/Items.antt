-- ===== src/Scenario/Items.antt =====
-- `count_scenario_items` and `build_item_list` of lueur-cli/src/scenario.rs. `todo!` and `unwrap`
-- panic.
pub mod Laws
pub mod Count
use lueur.Prelude.{
  String, ℕ, zero, suc, ◌+◌, ◌-◌, Option, none, some, List, [], ◌∷◌, Run, done, panic, ◌>>=◌,
  unwrap, Bool,
}
use lueur.Prelude.Float.{Float}
use lueur.Types.BandwidthUnit.{wrap_usize}
use lueur.Types.FaultConfiguration.{
  FaultConfiguration, LatencyFields, latency, packet_loss, bandwidth, jitter, dns,
}

pub record ScenarioItemExpectation (F : Type 0) : Type 0 where
  pub status : Option ℕ
  pub response_time_under : Option F

pub record ScenarioItemCall : Type 0 where
  pub method : String
  pub url : String
  pub headers : Option (List (String × String))
  pub body : Option String

pub data ScenarioItemCallStrategyMode : Type 0 where
  repeat : ScenarioItemCallStrategyMode

pub record ScenarioItemCallStrategy (F : Type 0) : Type 0 where
  pub mode : ScenarioItemCallStrategyMode
  pub failfast : Option Bool
  pub step : F
  pub count : ℕ
  pub wait : Option F

pub record ScenarioItemContext (F : Type 0) : Type 0 where
  pub upstreams : List String
  pub faults : List (FaultConfiguration F)
  pub strategy : Option (ScenarioItemCallStrategy F)

pub record ScenarioItem (F : Type 0) : Type 0 where
  pub call : ScenarioItemCall
  pub context : ScenarioItemContext F
  pub expect : Option (ScenarioItemExpectation F)

pub record Scenario (F : Type 0) : Type 0 where
  pub title : String
  pub description : Option String
  pub scenarios : List (ScenarioItem F)

abbrev pub strategy_count : {F : Type 0} → Option (ScenarioItemCallStrategy F) → ℕ
strategy_count none = 1
strategy_count (some strategy) = strategy.count

-- The loop of `count_scenario_items`; the sum is a `usize`.
count_from : {F : Type 0} → ℕ → List (ScenarioItem F) → ℕ
count_from count [] = count
count_from count (item ∷ items) =
    count_from (wrap_usize (count + strategy_count item.context.strategy)) items

pub count_scenario_items : {F : Type 0} → Scenario F → ℕ
unfolding count_from
count_scenario_items scenario = count_from 0 scenario.scenarios

module _ (fl : Float) where
  open fl use {F, add, mul, of_int}

  -- The `match` on one fault in round `i`.
  pub next_fault : F → ℕ → FaultConfiguration F → Run (FaultConfiguration F)
  next_fault step i (latency l) = do
    mean ← unwrap l.mean
    done (latency (record l { mean = some (add mean (mul step (of_int i))) }))
  next_fault step i (packet_loss _ _ _ _) = panic
  next_fault step i (bandwidth rate unit direction side) = done (bandwidth rate unit direction side)
  next_fault step i (jitter _ _ _) = panic
  next_fault step i (dns _ _) = panic

  pub next_faults : F → ℕ → List (FaultConfiguration F) → Run (List (FaultConfiguration F))
  unfolding next_fault
  next_faults step i [] = done []
  next_faults step i (fault ∷ faults) = do
    next ← next_fault step i fault
    rest ← next_faults step i faults
    done (next ∷ rest)

  -- `for i in 1..strategy.count`, with `n` rounds left.
  pub next_items : ScenarioItem F → F → ℕ → ℕ → Run (List (ScenarioItem F))
  unfolding next_faults
  next_items source step i zero = done []
  next_items source step i (suc n) = do
    faults ← next_faults step i source.context.faults
    rest ← next_items source step (i + 1) n
    done (record source { context = record (source.context) { faults = faults } } ∷ rest)

  more_items : ScenarioItem F → Option (ScenarioItemCallStrategy F) → Run (List (ScenarioItem F))
  unfolding next_items
  more_items source none = done []
  more_items source (some strategy) = next_items source strategy.step 1 (strategy.count - 1)

  unfoldable pub build_item_list : ScenarioItem F → Run (List (ScenarioItem F))
  unfolding more_items
  build_item_list source = do
    items ← more_items source source.context.strategy
    done (source ∷ items)
