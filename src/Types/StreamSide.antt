-- ===== src/Types/StreamSide.antt =====
-- `StreamSide` of lueur-cli/src/types.rs.
use lueur.Prelude.{String, Bool, true, false, Option, none, some}

pub data StreamSide : Type 0 where
  client server : StreamSide

unfoldable pub display : StreamSide → String
display client = "client"
display server = "server"

-- The derived `PartialEq`.
abbrev pub same_side : StreamSide → StreamSide → Bool
same_side client client = true
same_side server server = true
same_side _ _ = false

-- `side.clone().unwrap_or_default()`
abbrev pub side_or_default : Option StreamSide → StreamSide
side_or_default none = server
side_or_default (some s) = s
