-- ===== src/Reporting/Tests.antt =====
-- Results of two calls at which the theorems on the report are tried out.
use Prim.Native.String.{◌++◌}
use lueur.Prelude.{
  ok, err, ℕ, ◌≤◌, ◌≡◌, ◌↔◌, refl, false, none, some, List, [], ◌∷◌, done, panic, leb,
}
use lueur.Prelude.Fixed.{thousandths}
use lueur.Reporting.Items.{
  ReportItemExpectationDecision, success, failure, ReportItemExpectation, ReportItemHttpExpectation,
  ReportItemHttpResult, ReportItemMetrics, ReportItemResult,
}
use lueur.Reporting.Slo.{missed, error_rate}
use lueur.Reporting.Output.{
  Counters, Summary, bump, count_of, count_requests, generate_summary, build_report_output,
  table_row, TableRow,
}
use lueur.Reporting.Output.Counts.{count_requests_lem}
use lueur.Reporting.Output.Panics.{build_report_output-panic_iff, all_reportable}
use lueur.Types.FaultConfiguration.Display.{Numbers}
use lueur.Reporting.Render.{Renderers, row_markdown, row_html, format_faults_markdown}
use lueur.Reporting.Render.Laws.{met_cell, missed_rendered_met}

abbrev wanted : ReportItemHttpExpectation ℕ
wanted = record { status_code = some 200; response_time_under = none }

abbrev result : ReportItemExpectationDecision → ReportItemHttpResult ℕ
result decision = record { status_code = some 200; response_time = none; decision = decision }

abbrev metrics : ReportItemMetrics ℕ
metrics = record { dns = []; protocol = none; ttfb = 1; total_time = 2; faults = [] }

abbrev item : ReportItemExpectationDecision → ReportItemResult ℕ
item decision = record {
  address = "http://localhost";
  expect = some (ReportItemExpectation.http wanted (some (result decision)));
  faults = [];
  metrics = some metrics;
  errors = [];
  total_time = 2;
}

abbrev unexpected : ReportItemResult ℕ
unexpected = record (item success) { expect = none }

abbrev items : List (ReportItemResult ℕ)
items = item success ∷ item failure ∷ []

abbrev requests : Counters
requests = ("http://localhost", 2) ∷ []

abbrev errors : Counters
errors = ("http://localhost", 1) ∷ []

counted : count_requests items [] [] ≡ done (requests, errors)
unfolding count_requests bump
counted = refl

count_requests_lem_example :
    (count_of "http://localhost" requests ≡ 2)
    × (count_of "http://localhost" errors ≡ 1)
    × (count_of "http://localhost" errors ≤ count_of "http://localhost" requests)
count_requests_lem_example = count_requests_lem items requests errors counted "http://localhost"

abbrev summary : Summary
summary = record { total_tests = 2; total_failures = 1; failures_class = "breached" }

summed : generate_summary items ≡ done summary
unfolding generate_summary
summed = refl

build_report_output-panic_iff_example :
    (build_report_output thousandths (item success ∷ unexpected ∷ []) ≡ panic)
    ↔ (all_reportable (item success ∷ unexpected ∷ []) ≡ false)
build_report_output-panic_iff_example =
    build_report_output-panic_iff thousandths (item success ∷ unexpected ∷ [])

half_failed :
    leb
      (error_rate thousandths
        (count_of "http://localhost" requests)
        (count_of "http://localhost" errors))
      1000
    ≡ false
unfolding error_rate count_of
half_failed = refl

abbrev plain : Numbers thousandths
plain = record { show = λ n. "0"; fixed = λ places x. "0.00" }

abbrev uncoloured : Renderers ℕ
uncoloured = record {
  cyan = λ s. s;
  red = λ s. s;
  yellow = λ s. s;
  green = λ s. s;
  capitalize = λ s. s;
  table = λ titles rows. "";
  render = λ rows report. err "no template";
  to_json = λ report. ok "{}";
  to_yaml = λ report. ok "";
}

abbrev row : TableRow ℕ
row = table_row thousandths requests errors (item success)

missed_rendered_met_example :
    (row.slo_99_1_error.status ≡ missed)
    × (row_markdown thousandths plain uncoloured row
        ≡ "| `"
          ++ row.endpoint
          ++ "` | "
          ++ format_faults_markdown thousandths plain uncoloured row.total_faults
          ++ " | "
          ++ "✅"
          ++ " | "
          ++ "✅"
          ++ " | "
          ++ "✅"
          ++ " | "
          ++ "✅"
          ++ " | "
          ++ "✅"
          ++ " |")
    × ((row_html thousandths plain uncoloured row).slo_99_200ms
        ≡ met_cell thousandths plain uncoloured)
    × ((row_html thousandths plain uncoloured row).slo_95_500ms
        ≡ met_cell thousandths plain uncoloured)
    × ((row_html thousandths plain uncoloured row).slo_90_1s
        ≡ met_cell thousandths plain uncoloured)
    × ((row_html thousandths plain uncoloured row).slo_99_1_error
        ≡ met_cell thousandths plain uncoloured)
    × ((row_html thousandths plain uncoloured row).slo_95_0_5_error
        ≡ met_cell thousandths plain uncoloured)
missed_rendered_met_example =
    missed_rendered_met thousandths plain uncoloured requests errors (item success) wanted
      (result success) refl refl half_failed
