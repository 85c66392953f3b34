-- ===== src/Reporting/Output/Panics.antt =====
-- The items for which `build_report_output` has no answer.
use lueur.Prelude.{
  Run-cases, ◌≡◌, ◌↔◌, refl, Bool, true, false, not, ◌&&◌, Option, none, some, List, [], ◌∷◌, Run,
  done, panic, ◌>>=◌, unwrap, if◌then◌else◌, arith, inl, inr,
}
use lueur.Prelude.Float.{Float}
use lueur.Reporting.Items.{ReportItemExpectation, ReportItemResult, ReportItemMetrics, is_failure}
use lueur.Reporting.Output.{
  Counters, bump, has_failed, got, count_requests, count_failures, generate_summary, table_rows,
  build_report_output,
}

-- The item has an expectation with a result.
abbrev pub has_result : {F : Type 0} → Option (ReportItemExpectation F) → Bool
has_result (some (ReportItemExpectation.http wanted (some result))) = true
has_result _ = false

abbrev pub has_metrics : {F : Type 0} → Option (ReportItemMetrics F) → Bool
has_metrics none = false
has_metrics (some _) = true

abbrev pub all_reportable : {F : Type 0} → List (ReportItemResult F) → Bool
all_reportable [] = true
all_reportable (item ∷ items) =
    has_result item.expect && has_metrics item.metrics && all_reportable items

abbrev all_results : {F : Type 0} → List (ReportItemResult F) → Bool
all_results [] = true
all_results (item ∷ items) = has_result item.expect && all_results items

abbrev all_metrics : {F : Type 0} → List (ReportItemResult F) → Bool
all_metrics [] = true
all_metrics (item ∷ items) = has_metrics item.metrics && all_metrics items

abbrev panics {ℓ} : {A : Type ℓ} → Run A → Bool
panics panic = true
panics (done _) = false

module _ {F : Type 0} where
  has_failed-panics :
      (item : ReportItemResult F) → panics (has_failed item) ≡ not (has_result item.expect)
  unfolding has_failed
  has_failed-panics item = go item.expect
    where
      go :
          (e : Option (ReportItemExpectation F))
          → panics (do x ← unwrap e; r ← unwrap (got x); done (is_failure r.decision))
            ≡ not (has_result e)
      go none = refl
      go (some (ReportItemExpectation.http w none)) = refl
      go (some (ReportItemExpectation.http w (some r))) = refl

  count_requests-panics :
      (items : List (ReportItemResult F)) (requests errors : Counters)
      → panics (count_requests items requests errors) ≡ not (all_results items)
  unfolding count_requests
  count_requests-panics [] requests errors = refl
  count_requests-panics (item ∷ items) requests errors = elim (Run-cases (has_failed item)) [
    | inl bad ↦ ground (arith, has_failed-panics item)
    | inr (failed, e) ↦ ground (
      arith,
      has_failed-panics item,
      count_requests-panics items (bump item.address requests)
          (if failed then bump item.address errors else errors),
    )
  ]

  count_failures-panics :
      (items : List (ReportItemResult F)) → panics (count_failures items) ≡ not (all_results items)
  unfolding count_failures
  count_failures-panics [] = refl
  count_failures-panics (item ∷ items) =
      ground (arith, has_failed-panics item, count_failures-panics items)

  all_reportable_lem :
      (items : List (ReportItemResult F))
      → all_reportable items ≡ (all_results items && all_metrics items)
  all_reportable_lem [] = refl
  all_reportable_lem (item ∷ items) = ground (arith, all_reportable_lem items)

module _ (fl : Float) where
  open fl use {F}

  table_rows-panics :
      (requests errors : Counters) (items : List (ReportItemResult F))
      → panics (table_rows fl requests errors items) ≡ not (all_metrics items)
  unfolding table_rows
  table_rows-panics requests errors [] = refl
  table_rows-panics requests errors (item ∷ items) =
      ground (arith, table_rows-panics requests errors items)

  -- Building the report panics exactly when some item has no expectation, an expectation with no
  -- result, or no metrics.
  pub build_report_output-panic_iff :
      (items : List (ReportItemResult F))
      → (build_report_output fl items ≡ panic) ↔ (all_reportable items ≡ false)
  unfolding build_report_output generate_summary
  build_report_output-panic_iff items = elim (Run-cases (count_requests items [] [])) [
    | inl bad ↦ ground (arith, all_reportable_lem items, count_requests-panics items [] [])
    | inr ((requests, errors), e) ↦ ground (
      arith,
      all_reportable_lem items,
      count_requests-panics items [] [],
      table_rows-panics requests errors items,
      count_failures-panics items,
    )
  ]
