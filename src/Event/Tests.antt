-- ===== src/Event/Tests.antt =====
-- A fault task made after a passthrough task.
use lueur.Prelude.{◌≡◌, refl, [], ◌∷◌, arith, length}
use lueur.Event.{new_fault_event, next_id, new_passthrough_event}
use lueur.Event.Ids.{fault, passthrough, ids_distinct}

ids_distinct_example : length (passthrough ∷ []) ≡ length (fault ∷ [])
unfolding new_fault_event new_passthrough_event next_id
ids_distinct_example =
    ids_distinct (passthrough ∷ []) (fault ∷ []) fault passthrough (omega arith) (omega arith) refl
