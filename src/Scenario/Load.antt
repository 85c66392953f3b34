-- ===== src/Scenario/Load.antt =====
-- `load_scenarios` of lueur-cli/src/scenario.rs: the scenarios of the files below a directory, as the
-- list of what the stream yields. The walk, the files and the YAML documents are parameters. A path
-- is the text that `to_string_lossy` makes of it.
pub mod Laws
mod Tests
use lueur.Prelude.{
  String, Bool, true, false, ◌&&◌, ◌||◌, Option, none, some, List, [], ◌∷◌, ◌++◌, map, Result, ok,
  err, if◌then◌else◌,
}
use lueur.Errors.{ScenarioError, walk_dir_error, read_error, parse_error}
use lueur.Scenario.Items.{Scenario}

-- An entry of `WalkDir` that could be read.
pub record Entry : Type 0 where
  pub path : String
  pub is_file : Bool
  pub extension : Option String

-- `walk` and `documents` run on a blocking task, which may fail itself. The errors are their texts.
pub record Files (F File : Type 0) : Type 0 where
  pub walk : String → Result (List (Option Entry)) String
  pub open_file : String → Result File String
  pub read_to_string : File → Result String String
  pub documents : String → Result (List (Result (Scenario F) String)) String
  pub eq_ignore_ascii_case : String → String → Bool

module _ {F File : Type 0} (files : Files F File) where
  open files use {walk, open_file, read_to_string, documents, eq_ignore_ascii_case}

  pub is_scenario_file : Entry → Bool
  is_scenario_file entry = entry.is_file && elim (entry.extension) [
    | none ↦ false
    | some ext ↦ eq_ignore_ascii_case ext "yaml" || eq_ignore_ascii_case ext "yml"
  ]

  pub scenario_paths : List (Option Entry) → List String
  unfolding is_scenario_file
  scenario_paths [] = []
  scenario_paths (none ∷ entries) = scenario_paths entries
  scenario_paths (some entry ∷ entries) =
      let paths = scenario_paths entries in
      if is_scenario_file entry then entry.path ∷ paths else paths

  abbrev pub Yielded : Type 0
  Yielded = Result (Scenario F) ScenarioError

  pub yield_document : String → Result (Scenario F) String → Yielded
  yield_document path (ok s) = ok s
  yield_document path (err e) = err (parse_error path e)

  pub load_file : String → List Yielded
  unfolding yield_document
  load_file path = elim (open_file path) [
    | err e ↦ err (read_error path e) ∷ []
    | ok file ↦ elim (read_to_string file) [
      | err e ↦ err (read_error path e) ∷ []
      | ok contents ↦ elim (documents contents) [
        | err e ↦ err (read_error path e) ∷ []
        | ok docs ↦ map (yield_document path) docs
      ]
    ]
  ]

  pub load_files : List String → List Yielded
  unfolding load_file
  load_files [] = []
  load_files (path ∷ paths) = load_file path ++ load_files paths

  pub load_scenarios : (dir_path : String) → List Yielded
  unfolding scenario_paths load_files
  load_scenarios dir_path = elim (walk dir_path) [
    | err e ↦ err (walk_dir_error e) ∷ []
    | ok entries ↦ load_files (scenario_paths entries)
  ]
