-- ===== src/Main/Command/Items.antt =====
-- The scenarios of a run, taken as one list of items.
use mathlib.Core.List.{append-nil, append_assoc}
use lueur.Prelude.{
  String, ℕ, suc, ◌+◌, ◌≡◌, refl, sym, ap, ◌∙◌, List, [], ◌∷◌, ◌++◌, length, length-append, Result,
  ok, err, Run, done, panic, ◌>>=◌, Run-cases, inl, inr, arith,
}
use lueur.Prelude.Float.{Float}
use lueur.Errors.{ProxyError, ScenarioError}
use lueur.Upstream.{UrlApi}
use lueur.Scenario.Items.{ScenarioItem, Scenario, build_item_list}
use lueur.Scenario.Lifecycle.{ScenarioItemLifecycle}
use lueur.Reporting.Items.{ReportItemResult}
use lueur.Main.{Mark, Step, run_items, run_item}
use lueur.Main.Command.{Answer, Session, number, run_sources, run_candidates}

module _ (fl : Float) where
  open fl use {F}

  -- The items of all the scenarios that could be loaded, in order.
  abbrev pub items_of_sources : List (ScenarioItem F) → Run (List (ScenarioItem F))
  items_of_sources [] = done []
  items_of_sources (source ∷ sources) = do
    items ← build_item_list fl source
    later ← items_of_sources sources
    done (items ++ later)

  abbrev pub items_of : List (Result (Scenario F) ScenarioError) → Run (List (ScenarioItem F))
  items_of [] = done []
  items_of (ok scenario ∷ candidates) = do
    items ← items_of_sources scenario.scenarios
    later ← items_of candidates
    done (items ++ later)
  items_of (err e ∷ candidates) = items_of candidates

bind_assoc :
    {A B C : Type 0} (r : Run A) (f : A → Run B) (g : B → Run C)
    → ((r >>= f) >>= g) ≡ (r >>= λ a. f a >>= g)
bind_assoc panic f g = refl
bind_assoc (done a) f g = refl

module _ {F : Type 0} (world : ℕ → Answer F) where
  number-append :
      (n : ℕ) (xs ys : List (ScenarioItem F))
      → number world n (xs ++ ys) ≡ number world n xs ++ number world (n + length xs) ys
  unfolding number
  number-append n [] ys = let same : n ≡ n + 0 = omega arith in ap (λ k. number world k ys) same
  number-append n (x ∷ xs) ys =
      let same : n + 1 + length xs ≡ n + suc (length xs) = omega arith in
      let rest : number world (n + 1) (xs ++ ys)
          ≡ number world (n + 1) xs ++ number world (n + suc (length xs)) ys =
        number-append (n + 1) xs ys ∙ ap (λ k. number world (n + 1) xs ++ number world k ys) same in
      rw rest

module _ (fl : Float) (u : UrlApi) (to_lowercase : String → String)
    (show_error : ProxyError → String) where
  open fl use {F}

  -- What is run after other items.
  abbrev pub Ran : Type 0
  Ran = List (ScenarioItemLifecycle F) × List Mark × List (ReportItemResult F)

  abbrev then_run : Run Ran → List (Step F) → Run Ran
  then_run first steps = do
    ran ← first
    more ← run_items fl u to_lowercase show_error ran.0 steps
    done (more.0, ran.1 ++ more.1, ran.2 ++ more.2)

  run_items-append :
      (queue : List (ScenarioItemLifecycle F)) (xs ys : List (Step F))
      → run_items fl u to_lowercase show_error queue (xs ++ ys)
        ≡ then_run (run_items fl u to_lowercase show_error queue xs) ys
  unfolding run_items
  run_items-append queue [] ys =
      elim (Run-cases (run_items fl u to_lowercase show_error queue ys)) [
        | inl fails ↦ rw fails
        | inr (ran, e) ↦ rw e
      ]
  run_items-append queue (x ∷ xs) ys =
      elim (Run-cases (run_item fl u to_lowercase show_error queue x)) [
        | inl fails ↦ rw fails
        | inr (first, e) ↦
            rw (e, run_items-append first.0 xs ys)
              (elim (Run-cases (run_items fl u to_lowercase show_error first.0 xs)) [
                | inl fails ↦ rw fails
                | inr (ran, e') ↦
                    rw e' (elim (Run-cases (run_items fl u to_lowercase show_error ran.0 ys)) [
                      | inl fails ↦ rw fails
                      | inr (more, e'') ↦ rw e''
                    ])
              ])
      ]

  module _ (world : ℕ → Answer F) where
    -- A session after further items.
    abbrev pub after_items : Session F → List (ScenarioItem F) → Run (Session F)
    after_items s items = do
      ran ← run_items fl u to_lowercase show_error s.queue (number world s.executed items)
      done (record {
        executed = s.executed + length items;
        queue = ran.0;
        results = s.results ++ ran.2;
      })

    abbrev sources_run : Session F → List (ScenarioItem F) → Run (Session F)
    sources_run = run_sources fl u to_lowercase show_error world

    after_none : (s : Session F) → done s ≡ after_items s []
    unfolding number run_items
    after_none s = ground (arith, append-nil s.results)

    after_items-append :
        (s : Session F) (xs ys : List (ScenarioItem F))
        → after_items s (xs ++ ys) ≡ (after_items s xs >>= λ s'. after_items s' ys)
    after_items-append s xs ys =
        rw
          (
            number-append world s.executed xs ys,
            run_items-append s.queue (number world s.executed xs)
                (number world (s.executed + length xs) ys),
          )
          (elim (Run-cases
            (run_items fl u to_lowercase show_error s.queue (number world s.executed xs))) [
              | inl fails ↦ rw fails
              | inr (ran, e) ↦
                  rw e
                    (elim (Run-cases (
                      run_items fl u to_lowercase show_error ran.0
                        (number world (s.executed + length xs) ys))) [
                          | inl fails ↦ rw fails
                          | inr (more, e') ↦ rw e' (
                              ground
                                (arith, append_assoc s.results ran.2 more.2, length-append xs ys))
                        ])
            ])

    -- Items that are known, and then those that `next` gives.
    join :
        (s : Session F) (items : List (ScenarioItem F)) (next : Run (List (ScenarioItem F)))
        (k : Session F → Run (Session F))
        → ((s' : Session F) → k s' ≡ (next >>= after_items s'))
        → (after_items s items >>= k)
          ≡ ((next >>= λ later. done (items ++ later)) >>= after_items s)
    join s items next k h = elim (Run-cases next) [
      | inl fails ↦ rw fails (elim (Run-cases (after_items s items)) [
        | inl stops ↦ rw stops
        | inr (s', ran) ↦ rw ran (h s' ∙ rw fails)
      ])
      | inr (later, e) ↦
          rw (e, after_items-append s items later)
            (elim (Run-cases (after_items s items)) [
              | inl stops ↦ rw stops
              | inr (s', ran) ↦ rw ran (h s' ∙ rw e)
            ])
    ]

    run_sources-items :
        (s : Session F) (sources : List (ScenarioItem F))
        → sources_run s sources ≡ (items_of_sources fl sources >>= after_items s)
    unfolding run_sources
    run_sources-items s [] = after_none s
    run_sources-items s (source ∷ sources) = elim (Run-cases (build_item_list fl source)) [
      | inl fails ↦ rw fails
      | inr (items, e) ↦ rw e (
          sym (
            bind_assoc
              (run_items fl u to_lowercase show_error s.queue (number world s.executed items)) _ _)
          ∙ join s items (items_of_sources fl sources) (λ s'. sources_run s' sources)
              (λ s'. run_sources-items s' sources))
    ]

    -- The scenarios are run as one list of items: those of the scenarios that were loaded, in their
    -- order; what could not be loaded is passed over, and a panic while the items of any scenario
    -- are built or run ends the run.
    pub run_candidates-items :
        (s : Session F) (candidates : List (Result (Scenario F) ScenarioError))
        → run_candidates fl u to_lowercase show_error world s candidates
          ≡ (items_of fl candidates >>= after_items s)
    unfolding run_candidates
    run_candidates-items s [] = after_none s
    run_candidates-items s (err e ∷ candidates) = run_candidates-items s candidates
    run_candidates-items s (ok scenario ∷ candidates) =
        rw (run_sources-items s scenario.scenarios)
          (elim (Run-cases (items_of_sources fl scenario.scenarios)) [
            | inl fails ↦ rw fails
            | inr (items, e) ↦ rw e (
                join s items (items_of fl candidates)
                  (λ s'. run_candidates fl u to_lowercase show_error world s' candidates)
                  (λ s'. run_candidates-items s' candidates))
          ])
