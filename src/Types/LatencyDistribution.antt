-- ===== src/Types/LatencyDistribution.antt =====
-- `LatencyDistribution` of lueur-cli/src/types.rs.
use lueur.Prelude.{String, str_eq, eq_iff, ◌≡◌, ◌↔◌, Option, none, some, arith, if◌then◌else◌}

pub data LatencyDistribution : Type 0 where
  uniform normal pareto pareto_normal : LatencyDistribution

-- `to_lowercase` is `str::to_lowercase`.
unfoldable pub from_str : (String → String) → String → Option LatencyDistribution
from_str to_lowercase s =
    let w = to_lowercase s in
    if str_eq w "uniform"
    then some uniform
    else if str_eq w "normal"
    then some normal
    else if str_eq w "pareto"
    then some pareto
    else if str_eq w "pareto-normal"
    then some pareto_normal
    else none

unfoldable pub display : LatencyDistribution → String
display uniform = "uniform"
display normal = "normal"
display pareto = "pareto"
display pareto_normal = "pareto-normal"

-- A text is read as the distribution `d` exactly when its lower-case form is what `Display` prints
-- for `d`.
pub from_str-display_iff :
    (to_lowercase : String → String) (s : String) (d : LatencyDistribution)
    → (from_str to_lowercase s ≡ some d) ↔ (to_lowercase s ≡ display d)
unfolding from_str display
from_str-display_iff lower s d = ground (
  arith,
  eq_iff (lower s) "uniform",
  eq_iff (lower s) "normal",
  eq_iff (lower s) "pareto",
  eq_iff (lower s) "pareto-normal",
  eq_iff "uniform" "normal",
  eq_iff "uniform" "pareto",
  eq_iff "uniform" "pareto-normal",
  eq_iff "normal" "pareto",
  eq_iff "normal" "pareto-normal",
  eq_iff "pareto" "pareto-normal",
)

abbrev default : LatencyDistribution
default = uniform
