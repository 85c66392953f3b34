-- ===== src/Plugin/Metrics/Tests.antt =====
-- A stream that moves one byte at a time.
use lueur.Prelude.{ℕ, ◌+◌, List, [], ◌∷◌, ok}
use lueur.Fault.{Stream, ready}
use lueur.Plugin.Metrics.{Op, read, write}

abbrev bytes : Stream
bytes = record { S = ℕ; poll = λ len moved. (moved + 1, ready (ok 1)) }

abbrev ops : List (Op bytes)
ops = write 4 ∷ read 4 ∷ read 4 ∷ []
