-- ===== src/Reporting/Output.antt =====
-- `build_report_output` of lueur-cli/src/reporting.rs. The two hash maps of counters are association
-- lists with at most one entry for each endpoint; an `unwrap` of `None` panics.
pub mod Counts
pub mod Panics
pub mod Flags
use lueur.Prelude.{
  String, str_eq, ℕ, zero, suc, ◌+◌, Bool, true, false, Option, none, some, List, [], ◌∷◌, Run,
  done, panic, ◌>>=◌, unwrap, ltb, if◌then◌else◌, length,
}
use lueur.Prelude.Float.{Float}
use lueur.Types.FaultConfiguration.{FaultConfiguration}
use lueur.Reporting.Items.{
  ReportItemExpectation, ReportItemHttpResult, ReportItemMetrics, ReportItemResult, is_failure,
}
use lueur.Reporting.Slo.{
  Mark, BreachInfo, Evaluation, evaluate_latency_slo, evaluate_error_rate_slo,
}

pub record SloResult (F : Type 0) : Type 0 where
  pub status : Mark
  pub breached : Bool
  pub breach_amount : Option F
  pub breach_unit : Option String
  pub breach_time : Option ℕ
  pub breach_reason : Option String

pub record TableRow (F : Type 0) : Type 0 where
  pub endpoint : String
  pub total_faults : List (FaultConfiguration F)
  pub slo_99_200ms : SloResult F
  pub slo_95_500ms : SloResult F
  pub slo_90_1s : SloResult F
  pub slo_99_1_error : SloResult F
  pub slo_95_0_5_error : SloResult F

pub record Summary : Type 0 where
  pub total_tests : ℕ
  pub total_failures : ℕ
  pub failures_class : String

pub record FaultAnalysisItem : Type 0 where
  pub fault_type : String
  pub count : ℕ

-- The advice for a fault type, or that there is none.
pub data Recommendation : Type 0 where
  high_latency lost_packets http_errors low_bandwidth jitter nothing_specific : Recommendation

pub record ReportOutput (F : Type 0) : Type 0 where
  pub table : List (TableRow F)
  pub summary : Summary
  pub fault_analysis : List FaultAnalysisItem
  pub recommendations : List Recommendation

abbrev pub Counters : Type 0
Counters = List (String × ℕ)

-- `*counters.entry(key).or_insert(0) += 1`
unfoldable pub bump : String → Counters → Counters
bump key [] = (key, 1) ∷ []
bump key ((k, n) ∷ m) = if str_eq k key then (k, n + 1) ∷ m else (k, n) ∷ bump key m

-- `*counters.get(key).unwrap_or(&0)`
unfoldable pub count_of : String → Counters → ℕ
count_of key [] = 0
count_of key ((k, n) ∷ m) = if str_eq k key then n else count_of key m

abbrev got : {F : Type 0} → ReportItemExpectation F → Option (ReportItemHttpResult F)
got (ReportItemExpectation.http wanted result) = result

-- `expect.unwrap()`, then `got.unwrap()`: whether the item failed.
pub has_failed : {F : Type 0} → ReportItemResult F → Run Bool
has_failed item = do
  expectation ← unwrap item.expect
  result ← unwrap (got expectation)
  done (is_failure result.decision)

-- The first pass over the items.
unfoldable pub count_requests :
    {F : Type 0}
    → List (ReportItemResult F)
    → (requests errors : Counters) → Run (Counters × Counters)
unfolding has_failed
count_requests [] requests errors = done (requests, errors)
count_requests (item ∷ items) requests errors = do
  failed ← has_failed item
  count_requests items (bump item.address requests)
      (if failed then bump item.address errors else errors)

-- `generate_summary`
count_failures : {F : Type 0} → List (ReportItemResult F) → Run ℕ
unfolding has_failed
count_failures [] = done 0
count_failures (item ∷ items) = do
  failed ← has_failed item
  n ← count_failures items
  done (if failed then n + 1 else n)

unfoldable pub generate_summary : {F : Type 0} → List (ReportItemResult F) → Run Summary
unfolding count_failures
generate_summary items = do
  total_failures ← count_failures items
  done (record {
    total_tests = length items;
    total_failures = total_failures;
    failures_class = if ltb 0 total_failures then "breached" else "met";
  })

-- The body of the loop in `analyze_fault_types` is commented out: nothing is counted.
pub analyze_fault_types : {F : Type 0} → List (ReportItemResult F) → List FaultAnalysisItem
analyze_fault_types items = []

recommend : FaultAnalysisItem → List Recommendation → List Recommendation
recommend fault rest =
    if str_eq fault.fault_type "latency"
    then (if ltb 3 fault.count then high_latency ∷ rest else rest)
    else if str_eq fault.fault_type "packet loss"
    then (if ltb 1 fault.count then lost_packets ∷ rest else rest)
    else if str_eq fault.fault_type "http errors"
    then (if ltb 1 fault.count then http_errors ∷ rest else rest)
    else if str_eq fault.fault_type "bandwidth"
    then (if ltb 2 fault.count then low_bandwidth ∷ rest else rest)
    else if str_eq fault.fault_type "jitter"
    then (if ltb 2 fault.count then jitter ∷ rest else rest)
    else rest

recommend_all : List FaultAnalysisItem → List Recommendation
unfolding recommend
recommend_all [] = []
recommend_all (fault ∷ faults) = recommend fault (recommend_all faults)

abbrev or_nothing_specific : List Recommendation → List Recommendation
or_nothing_specific [] = nothing_specific ∷ []
or_nothing_specific (r ∷ rs) = r ∷ rs

unfoldable pub generate_fault_recommendations :
    {F : Type 0} → List (ReportItemResult F) → List Recommendation
unfolding recommend_all analyze_fault_types
generate_fault_recommendations items =
    or_nothing_specific (recommend_all (analyze_fault_types items))

-- A cell of the table: the evaluation, and the flag that the row puts there.
slo_result : {F : Type 0} → Evaluation F → (breached : Bool) → Option String → SloResult F
slo_result e breached reason = elim (e.breach_info) [
  | none ↦ record {
    status = e.status;
    breached = breached;
    breach_amount = none;
    breach_unit = none;
    breach_time = none;
    breach_reason = reason;
  }
  | some breach ↦ record {
    status = e.status;
    breached = breached;
    breach_amount = some breach.amount;
    breach_unit = some breach.unit;
    breach_time = some breach.time;
    breach_reason = reason;
  }
]

module _ (fl : Float) where
  open fl use {F, lit}

  -- One row. Every cell takes `slo_results[0].1`, the flag of the first evaluation.
  pub table_row : (requests errors : Counters) → ReportItemResult F → TableRow F
  unfolding slo_result
  table_row requests errors item =
      let total = count_of item.address requests in
      let failed = count_of item.address errors in
      let first = evaluate_latency_slo fl item (lit 2000 1) in
      let second = evaluate_latency_slo fl item (lit 5000 1) in
      let third = evaluate_latency_slo fl item (lit 10000 1) in
      let fourth = evaluate_error_rate_slo fl item (lit 10 1) total failed in
      let fifth = evaluate_error_rate_slo fl item (lit 5 1) total failed in
      record {
        endpoint = item.address;
        total_faults = item.faults;
        slo_99_200ms = slo_result first first.breached none;
        slo_95_500ms = slo_result second first.breached none;
        slo_90_1s = slo_result third first.breached none;
        slo_99_1_error = slo_result fourth first.breached (some "Error Rate");
        slo_95_0_5_error = slo_result fifth first.breached (some "Error Rate");
      }

  -- The second pass; `metrics.unwrap()` comes before the evaluations.
  pub table_rows :
      (requests errors : Counters) → List (ReportItemResult F) → Run (List (TableRow F))
  table_rows requests errors [] = done []
  table_rows requests errors (item ∷ items) = do
    metrics ← unwrap item.metrics
    rows ← table_rows requests errors items
    done (table_row requests errors item ∷ rows)

  pub build_report_output : List (ReportItemResult F) → Run (ReportOutput F)
  build_report_output items = do
    (requests, errors) ← count_requests items [] []
    table ← table_rows requests errors items
    summary ← generate_summary items
    done (record {
      table = table;
      summary = summary;
      fault_analysis = analyze_fault_types items;
      recommendations = generate_fault_recommendations items;
    })
