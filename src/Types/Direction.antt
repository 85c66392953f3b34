-- ===== src/Types/Direction.antt =====
-- `Direction` of lueur-cli/src/types.rs.
use lueur.Prelude.{
  String, str_eq, eq_iff, ◌≡◌, ◌↔◌, Bool, true, false, Option, none, some, arith, if◌then◌else◌,
}

pub data Direction : Type 0 where
  ingress egress both : Direction

-- `to_lowercase` is `str::to_lowercase`.
unfoldable pub from_str : (String → String) → String → Option Direction
from_str to_lowercase s =
    let w = to_lowercase s in
    if str_eq w "ingress"
    then some ingress
    else if str_eq w "egress"
    then some egress
    else if str_eq w "both"
    then some both
    else none

unfoldable pub display : Direction → String
display ingress = "ingress"
display egress = "egress"
display both = "both"

-- The derived `PartialEq`.
unfoldable pub is_ingress : Direction → Bool
is_ingress ingress = true
is_ingress egress = false
is_ingress both = true

unfoldable pub is_egress : Direction → Bool
is_egress ingress = false
is_egress egress = true
is_egress both = true

pub from_str-display_iff :
    (to_lowercase : String → String) (s : String) (d : Direction)
    → (from_str to_lowercase s ≡ some d) ↔ (to_lowercase s ≡ display d)
unfolding from_str display
from_str-display_iff lower s d = ground (
  arith,
  eq_iff (lower s) "ingress",
  eq_iff (lower s) "egress",
  eq_iff (lower s) "both",
  eq_iff "ingress" "egress",
  eq_iff "ingress" "both",
  eq_iff "egress" "both",
  eq_iff "egress" "ingress",
  eq_iff "both" "ingress",
  eq_iff "both" "egress",
)
