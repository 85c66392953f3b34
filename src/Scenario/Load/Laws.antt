-- ===== src/Scenario/Load/Laws.antt =====
-- What is loaded of a directory.
use mathlib.Core.List.Memᴰ as Member
use mathlib.Core.List.Memᴰ.{Memᴰ, head, tail}
use mathlib.Core.Path.{subst}
use lueur.Prelude.{
  String, ◌≡◌, refl, sym, true, false, ◌↔◌, ◌⊎◌, inl, inr, Option, none, some, List, [], ◌∷◌, map,
  Result, ok, err, Result-cases, Bool-cases, arith,
}
use lueur.Errors.{ScenarioError, read_error}
use lueur.Scenario.Items.{Scenario}
use lueur.Scenario.Load.{
  Entry, Files, is_scenario_file, scenario_paths, Yielded, yield_document, load_file, load_files,
  load_scenarios,
}

module _ {F File : Type 0} (files : Files F File) where
  open files use {walk, open_file, read_to_string, documents}

  -- A file with the scenario among its documents, which may have others that are broken.
  abbrev pub Holds : String → Scenario F → Type 0
  Holds path s =
      (file : File) × (contents : String) × (docs : List (Result (Scenario F) String)) × (open_file
          path
        ≡ ok file)
      × (read_to_string file ≡ ok contents)
      × (documents contents ≡ ok docs)
      × Memᴰ (ok s) docs

  yield_document-ok :
      (path : String) (doc : Result (Scenario F) String) (s : Scenario F)
      → yield_document files path doc ≡ ok s
      → doc ≡ ok s
  unfolding yield_document
  yield_document-ok path (ok t) s e = cc e
  yield_document-ok path (err t) s e = absurd (cc e)

  -- A file that cannot be loaded yields one error.
  not_ok : (e : ScenarioError) (s : Scenario F) → Memᴰ (ok s) (err e ∷ []) → ⊥
  not_ok e s m = absurd (cc (Member.eq_of_singleton m))

  load_file-docs :
      (path : String) (file : File) (contents : String) (docs : List (Result (Scenario F) String))
      → open_file path ≡ ok file
      → read_to_string file ≡ ok contents
      → documents contents ≡ ok docs
      → load_file files path ≡ map (yield_document files path) docs
  unfolding load_file
  load_file-docs path file contents docs e1 e2 e3 = ground arith

  -- Any error before the documents are read is all that the file yields.
  load_file-err :
      (path : String)
      → ((e : String) × (load_file files path ≡ err (read_error path e) ∷ []))
        ⊎ ((file : File) × (contents : String) × (docs : List (Result (Scenario F) String))
            × (open_file path ≡ ok file)
            × (read_to_string file ≡ ok contents)
            × (documents contents ≡ ok docs))
  unfolding load_file
  load_file-err path = elim (Result-cases (open_file path)) [
    | inr (e, e1) ↦ inl (e, ground arith)
    | inl (file, e1) ↦ elim (Result-cases (read_to_string file)) [
      | inr (e, e2) ↦ inl (e, ground arith)
      | inl (contents, e2) ↦ elim (Result-cases (documents contents)) [
        | inr (e, e3) ↦ inl (e, ground arith)
        | inl (docs, e3) ↦ inr (file, contents, docs, e1, e2, e3)
      ]
    ]
  ]

  load_file-Holds :
      (path : String) (s : Scenario F) → Memᴰ (ok s) (load_file files path) → Holds path s
  load_file-Holds path s m = elim (load_file-err path) [
    | inl (e, same) ↦ absurd (not_ok (read_error path e) s (subst (Memᴰ (ok s)) same m))
    | inr (file, contents, docs, e1, e2, e3) ↦
        let (doc, inside, yielded) =
          Member.of_map (yield_document files path) docs
            (subst (Memᴰ (ok s)) (load_file-docs path file contents docs e1 e2 e3) m) in
        (
          file,
          contents,
          docs,
          e1,
          e2,
          e3,
          subst (λ d. Memᴰ d docs) (yield_document-ok path doc s yielded) inside,
        )
  ]

  Holds-load_file :
      (path : String) (s : Scenario F) → Holds path s → Memᴰ (ok s) (load_file files path)
  unfolding yield_document
  Holds-load_file path s (file, contents, docs, e1, e2, e3, m) =
      subst (Memᴰ (ok s)) (sym (load_file-docs path file contents docs e1 e2 e3))
        (Member.map (yield_document files path) m)

  load_files-from :
      (paths : List String) (y : Yielded files)
      → Memᴰ y (load_files files paths)
      → (path : String) × Memᴰ path paths × Memᴰ y (load_file files path)
  unfolding load_files
  load_files-from [] y m = absurd (Member.not-nil m)
  load_files-from (path ∷ paths) y m = elim (Member.append_cases (load_file files path) m) [
    | inl here ↦ (path, head refl, here)
    | inr later ↦
        let (other, inside, yielded) = load_files-from paths y later in
        (other, tail inside, yielded)
  ]

  load_files-all :
      (paths : List String) (path : String) (y : Yielded files)
      → Memᴰ path paths
      → Memᴰ y (load_file files path)
      → Memᴰ y (load_files files paths)
  unfolding load_files
  load_files-all [] path y inside m = absurd (Member.not-nil inside)
  load_files-all (p ∷ paths) path y (head e) m =
      Member.append_left (load_files files paths) (subst (λ q. Memᴰ y (load_file files q)) e m)
  load_files-all (p ∷ paths) path y (tail inside) m =
      Member.append_right (load_file files p) (load_files-all paths path y inside m)

  -- A file of the walk that has the extension of a scenario.
  abbrev pub Found : List (Option Entry) → String → Type 0
  Found entries path =
      (entry : Entry) × Memᴰ (some entry) entries
      × (is_scenario_file files entry ≡ true)
      × (entry.path ≡ path)

  -- What an entry adds to the paths.
  scenario_paths-fits :
      (entry : Entry) (entries : List (Option Entry))
      → is_scenario_file files entry ≡ true
      → scenario_paths files (some entry ∷ entries) ≡ entry.path ∷ scenario_paths files entries
  unfolding scenario_paths
  scenario_paths-fits entry entries e = ground arith

  scenario_paths-unfit :
      (entry : Entry) (entries : List (Option Entry))
      → is_scenario_file files entry ≡ false
      → scenario_paths files (some entry ∷ entries) ≡ scenario_paths files entries
  unfolding scenario_paths
  scenario_paths-unfit entry entries e = ground arith

  later_Found :
      (first : Option Entry) (entries : List (Option Entry)) (path : String)
      → Found entries path
      → Found (first ∷ entries) path
  later_Found first entries path (entry, inside, e1, e2) = (entry, tail inside, e1, e2)

  scenario_paths-Found :
      (entries : List (Option Entry)) (path : String)
      → Memᴰ path (scenario_paths files entries)
      → Found entries path
  unfolding scenario_paths
  scenario_paths-Found [] path m = absurd (Member.not-nil m)
  scenario_paths-Found (none ∷ entries) path m =
      later_Found none entries path (scenario_paths-Found entries path m)
  scenario_paths-Found (some entry ∷ entries) path m =
      elim (Bool-cases (is_scenario_file files entry)) [
        | inl fits ↦
            elim (Member.cases_cons
              (subst (Memᴰ path) (scenario_paths-fits entry entries fits) m)) [
                | inl e ↦ (entry, head refl, fits, sym e)
                | inr later ↦
                    later_Found (some entry) entries path (scenario_paths-Found entries path later)
              ]
        | inr unfit ↦ later_Found (some entry) entries path (
            scenario_paths-Found entries path
              (subst (Memᴰ path) (scenario_paths-unfit entry entries unfit) m))
      ]

  -- Further paths do not hide one.
  scenario_paths-later :
      (first : Option Entry) (entries : List (Option Entry)) (path : String)
      → Memᴰ path (scenario_paths files entries)
      → Memᴰ path (scenario_paths files (first ∷ entries))
  unfolding scenario_paths
  scenario_paths-later none entries path m = m
  scenario_paths-later (some entry) entries path m =
      elim (Bool-cases (is_scenario_file files entry)) [
        | inl fits ↦ subst (Memᴰ path) (sym (scenario_paths-fits entry entries fits)) (tail m)
        | inr unfit ↦ subst (Memᴰ path) (sym (scenario_paths-unfit entry entries unfit)) m
      ]

  scenario_paths-has :
      (entries : List (Option Entry)) (entry : Entry)
      → Memᴰ (some entry) entries
      → is_scenario_file files entry ≡ true
      → Memᴰ entry.path (scenario_paths files entries)
  scenario_paths-has [] entry inside e = absurd (Member.not-nil inside)
  scenario_paths-has (first ∷ entries) entry (head same) e =
      subst (λ o. Memᴰ entry.path (scenario_paths files (o ∷ entries))) same
        (subst (Memᴰ entry.path) (sym (scenario_paths-fits entry entries e)) (head refl))
  scenario_paths-has (first ∷ entries) entry (tail inside) e =
      scenario_paths-later first entries entry.path (scenario_paths-has entries entry inside e)

  -- A scenario that can be loaded from a walk.
  abbrev pub Loadable : List (Option Entry) → Scenario F → Type 0
  Loadable entries s =
      (entry : Entry) × Memᴰ (some entry) entries
      × (is_scenario_file files entry ≡ true)
      × Holds entry.path s

  -- The scenarios that are loaded from a directory that can be walked are exactly those that stand
  -- in a document of some file of the walk with the extension of a scenario, which can be opened and
  -- read: entries, files and documents that cannot be read keep no other scenario out.
  pub load_scenarios-ok_iff :
      (dir_path : String) (entries : List (Option Entry)) (s : Scenario F)
      → walk dir_path ≡ ok entries
      → Memᴰ (ok s) (load_scenarios files dir_path) ↔ Loadable entries s
  unfolding load_scenarios
  load_scenarios-ok_iff dir_path entries s e =
      let same : load_scenarios files dir_path ≡ load_files files (scenario_paths files entries) =
        ground arith in
      (
        λ m.
            let (path, inside, yielded) =
              load_files-from (scenario_paths files entries) (ok s) (subst (Memᴰ (ok s)) same m) in
            let (entry, found, named, at) = scenario_paths-Found entries path inside in
            (entry, found, named, subst (λ q. Holds q s) (sym at) (load_file-Holds path s yielded)),
        λ l.
            let (entry, found, named, holds) = l in
            subst (Memᴰ (ok s)) (sym same) (
              load_files-all (scenario_paths files entries) entry.path (ok s)
                (scenario_paths-has entries entry found named)
                (Holds-load_file entry.path s holds)),
      )
