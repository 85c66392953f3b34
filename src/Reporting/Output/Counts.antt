-- ===== src/Reporting/Output/Counts.antt =====
-- The counters of the first pass, and the summary.
use lueur.Prelude.{
  Run-cases, String, str_eq, eq_iff, ℕ, suc, ◌+◌, ◌≤◌, ◌≡◌, Bool, true, false, ◌&&◌, Option, none,
  some, List, [], ◌∷◌, done, ◌>>=◌, unwrap, ◌==◌, if◌then◌else◌, length, arith, inl, inr,
}
use lueur.Reporting.Items.{ReportItemExpectation, ReportItemResult, is_failure}
use lueur.Reporting.Output.{
  Counters, bump, count_of, has_failed, got, count_requests, count_failures, Summary,
  generate_summary,
}

-- The item has a result, and its decision is a failure.
abbrev pub failure_of : {F : Type 0} → Option (ReportItemExpectation F) → Bool
failure_of (some (ReportItemExpectation.http wanted (some result))) = is_failure result.decision
failure_of _ = false

abbrev pub tally : Bool → ℕ → ℕ
tally true n = suc n
tally false n = n

abbrev pub requests_at : {F : Type 0} → String → List (ReportItemResult F) → ℕ
requests_at key [] = 0
requests_at key (item ∷ items) = tally (str_eq item.address key) (requests_at key items)

abbrev pub failures_at : {F : Type 0} → String → List (ReportItemResult F) → ℕ
failures_at key [] = 0
failures_at key (item ∷ items) =
    tally (str_eq item.address key && failure_of item.expect) (failures_at key items)

abbrev pub failures : {F : Type 0} → List (ReportItemResult F) → ℕ
failures [] = 0
failures (item ∷ items) = tally (failure_of item.expect) (failures items)

failures_at-le :
    {F : Type 0} (key : String) (items : List (ReportItemResult F))
    → failures_at key items ≤ requests_at key items
failures_at-le key [] = omega arith
failures_at-le key (item ∷ items) = ground (arith, failures_at-le key items)

failures-le : {F : Type 0} (items : List (ReportItemResult F)) → failures items ≤ length items
failures-le [] = omega arith
failures-le (item ∷ items) = ground (arith, failures-le items)

count_of-bump :
    (key k : String) (m : Counters)
    → count_of key (bump k m) ≡ tally (str_eq k key) (count_of key m)
unfolding count_of bump
count_of-bump key k [] = ground arith
count_of-bump key k ((j, n) ∷ m) =
    ground (arith, eq_iff j k, eq_iff j key, eq_iff k key, count_of-bump key k m)

module _ {F : Type 0} where
  has_failed-done :
      (item : ReportItemResult F) {b : Bool} → has_failed item ≡ done b → b ≡ failure_of item.expect
  unfolding has_failed
  has_failed-done item {b} = go item.expect
    where
      go :
          (e : Option (ReportItemExpectation F))
          → (do x ← unwrap e; r ← unwrap (got x); done (is_failure r.decision)) ≡ done b
          → b ≡ failure_of e
      go none h = cc
      go (some (ReportItemExpectation.http w none)) h = cc
      go (some (ReportItemExpectation.http w (some r))) h = cc

  count_requests-at :
      (key : String) (items : List (ReportItemResult F))
      (requests errors requests' errors' : Counters)
      → count_requests items requests errors ≡ done (requests', errors')
      → (count_of key requests' ≡ count_of key requests + requests_at key items)
        × (count_of key errors' ≡ count_of key errors + failures_at key items)
  unfolding count_requests
  count_requests-at key [] requests errors requests' errors' h = ground arith
  count_requests-at key (item ∷ items) requests errors requests' errors' h =
      elim (Run-cases (has_failed item)) [
        | inl bad ↦ cc
        | inr (failed, e) ↦
            let ih =
              count_requests-at key items (bump item.address requests)
                (if failed then bump item.address errors else errors) requests' errors'
                (ground arith) in
            ground (
              arith,
              ih,
              has_failed-done item e,
              count_of-bump key item.address requests,
              count_of-bump key item.address errors,
            )
      ]

  -- After a first pass that does not panic, each endpoint's counters are the number of items with
  -- that address, and the number of those whose decision is a failure; the second is at most the
  -- first.
  pub count_requests_lem :
      (items : List (ReportItemResult F)) (requests errors : Counters)
      → count_requests items [] [] ≡ done (requests, errors)
      → (key : String)
      → (count_of key requests ≡ requests_at key items)
        × (count_of key errors ≡ failures_at key items)
        × (count_of key errors ≤ count_of key requests)
  unfolding count_of
  count_requests_lem items requests errors h key =
      let at = count_requests-at key items [] [] requests errors h in
      omega (arith, at, failures_at-le key items)

  count_failures-done :
      (items : List (ReportItemResult F)) {n : ℕ}
      → count_failures items ≡ done n
      → n ≡ failures items
  unfolding count_failures
  count_failures-done [] h = ground arith
  count_failures-done (item ∷ items) h = elim (Run-cases (has_failed item)) [
    | inl bad ↦ cc
    | inr (failed, e) ↦ elim (Run-cases (count_failures items)) [
      | inl bad ↦ cc
      | inr (n, e') ↦ ground (arith, has_failed-done item e, count_failures-done items e')
    ]
  ]

  -- The summary counts all items and those whose decision is a failure; it is "met" exactly when
  -- there is none of these.
  pub generate_summary_lem :
      (items : List (ReportItemResult F)) (s : Summary)
      → generate_summary items ≡ done s
      → (s.total_tests ≡ length items)
        × (s.total_failures ≡ failures items)
        × (s.total_failures ≤ s.total_tests)
        × (s.failures_class ≡ (if failures items == 0 then "met" else "breached"))
  unfolding generate_summary
  generate_summary_lem items s h = elim (Run-cases (count_failures items)) [
    | inl bad ↦ cc
    | inr (n, e) ↦ ground (arith, count_failures-done items e, failures-le items)
  ]
