-- ===== src/Types/PacketLossType.antt =====
-- `PacketLossType` of lueur-cli/src/types.rs.
use lueur.Prelude.{String, str_eq, Option, none, some, if◌then◌else◌}

pub data PacketLossType : Type 0 where
  multi_state_markov : PacketLossType

unfoldable pub from_str : (String → String) → String → Option PacketLossType
from_str to_lowercase s =
    if str_eq (to_lowercase s) "multistatemarkov" then some multi_state_markov else none

unfoldable pub display : PacketLossType → String
display multi_state_markov = "multistatemarkov"

abbrev default : PacketLossType
default = multi_state_markov
