-- ===== src/Proxy/Forward/Calls.antt =====
-- Calls that report to the task, and end in a value, an error or a panic.
use lueur.Prelude.{Bool, List, [], ◌∷◌, ◌++◌, Result, ok, err, if◌then◌else◌}
use lueur.Errors.{ProxyError}
use lueur.Event.{Report}

-- How a call ends: by a value, by an error, or by a panic, after the reports it made.
pub data Ending (A : Type 0) : Type 0 where
  returned : A → Ending A
  failed : ProxyError → Ending A
  panicked : Ending A

abbrev pub Traced : (F A : Type 0) → Type 0
Traced F A = List (Report F) × Ending A

infixl 5 ◌>>=◌ ◌>>◌
abbrev pub ◌>>=◌ : {F A B : Type 0} → Traced F A → (A → Traced F B) → Traced F B
(reports, panicked) >>= next = (reports, panicked)
(reports, failed e) >>= next = (reports, failed e)
(reports, returned a) >>= next = let (later, ending) = next a in (reports ++ later, ending)

abbrev pub ◌>>◌ : {F A B : Type 0} → Traced F A → Traced F B → Traced F B
first >> next = first >>= λ _. next

abbrev pub value : {F A : Type 0} → A → Traced F A
value a = ([], returned a)

abbrev pub tell : {F : Type 0} → Report F → Traced F Unit
tell r = (r ∷ [], returned tt)

abbrev pub unwrap : {F A E : Type 0} → Result A E → Traced F A
unwrap (ok a) = ([], returned a)
unwrap (err e) = ([], panicked)

abbrev pub unless : {F A E : Type 0} → (passthrough : Bool) → (A → Result A E) → A → Traced F A
unless passthrough step a = if passthrough then value a else unwrap (step a)
