-- ===== src/Fault/Dns/Tests.antt =====
-- A generator that counts, at which the theorem about look-ups is tried out.
use lueur.Prelude.{ℕ, ◌+◌, ltb, ◌≡◌, refl, some, Option, Bool, false, List, [], ◌∷◌, All, done}
use lueur.Prelude.Fixed.{thousandths}
use lueur.Types.Direction.{egress}
use lueur.Event.{fault_task}
use lueur.Fault.Dns.{SmallRng, FaultyResolverInjector, from, apply_on_request_builder, resolve}
use lueur.Fault.Dns.Laws.{Lookup, Asking, fate, fates, fates_agree}

-- Each draw is higher than the one before.
abbrev rising : SmallRng ℕ
rising = record { R = ℕ; gen_bool = λ p r. done (ltb r p, r + 300) }

abbrev injector : FaultyResolverInjector thousandths rising
injector = from thousandths rising (record { direction = egress; dns_rate = 50 }) 400

abbrev lookup : ℕ → Lookup ℕ
lookup now = record { now = now; known = 7 }

abbrev requests : List (Asking ℕ)
requests =
    record { event = fault_task 1; lookups = lookup 1 ∷ lookup 2 ∷ [] }
    ∷ record { event = fault_task 2; lookups = lookup 3 ∷ [] }
    ∷ []

all_fail : fates thousandths rising injector requests ≡ some false ∷ some false ∷ some false ∷ []
unfolding from apply_on_request_builder resolve
all_fail = refl

fates_agree_example :
    All
      (λ (o : Option Bool). o ≡ fate thousandths rising injector)
      (fates thousandths rising injector requests)
fates_agree_example = fates_agree thousandths rising injector requests
