-- ===== src/Scenario/Load/Tests.antt =====
-- A directory with an entry that cannot be read, a file of another kind, one that cannot be opened,
-- and one with a broken document before a scenario.
use mathlib.Core.List.Memᴰ.{Memᴰ}
use lueur.Prelude.{
  String, str_eq, ℕ, ◌≡◌, ◌↔◌, refl, true, Option, none, some, List, [], ◌∷◌, ok, err,
  if◌then◌else◌,
}
use lueur.Errors.{read_error, parse_error}
use lueur.Scenario.Items.{Scenario}
use lueur.Scenario.Load.{Entry, Files, load_scenarios}
use lueur.Scenario.Load.Laws.{Loadable, load_scenarios-ok_iff}

abbrev entry : (path extension : String) → Entry
entry path extension = record { path = path; is_file = true; extension = some extension }

abbrev checkout : Scenario ℕ
checkout = record { title = "checkout"; description = none; scenarios = [] }

abbrev entries : List (Option Entry)
entries =
    none
    ∷ some (entry "notes.md" "md")
    ∷ some (entry "locked.yml" "yml")
    ∷ some (entry "shop.yaml" "yaml")
    ∷ []

abbrev files : Files ℕ String
files = record {
  walk = λ dir_path. ok entries;
  open_file = λ path. if str_eq path "locked.yml" then err "permission denied" else ok path;
  read_to_string = ok;
  documents = λ contents. ok (err "missing field `title`" ∷ ok checkout ∷ []);
  eq_ignore_ascii_case = str_eq;
}

loaded :
    load_scenarios files "scenarios"
    ≡ err (read_error "locked.yml" "permission denied")
      ∷ err (parse_error "shop.yaml" "missing field `title`")
      ∷ ok checkout
      ∷ []
unfolding load_scenarios
loaded = refl

load_scenarios-ok_iff_example :
    Memᴰ (ok checkout) (load_scenarios files "scenarios") ↔ Loadable files entries checkout
load_scenarios-ok_iff_example = load_scenarios-ok_iff files "scenarios" entries checkout refl
