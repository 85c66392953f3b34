-- ===== src/Reporting/Render.antt =====
-- The renderings of a report in lueur-cli/src/reporting.rs. `prettytable`, `tera` and the serializers
-- are parameters, as are the colours and the formats of numbers.
pub mod Laws
use Prim.Native.String.{◌++◌}
use lueur.Prelude.{
  String, ℕ, ◌/◌, ◌%◌, ◌*◌, ltb, Bool, true, false, Option, none, some, List, [], ◌∷◌, map, Result,
  ok, err, if◌then◌else◌,
}
use lueur.Prelude.Float.{Float}
use lueur.Types.FaultConfiguration.{FaultConfiguration, get_or}
use lueur.Types.FaultConfiguration.Display.{Numbers}
use lueur.Types.FaultConfiguration.Display as Display
use lueur.Reporting.Output.{
  SloResult, TableRow, Summary, FaultAnalysisItem, ReportOutput, Recommendation, high_latency,
  lost_packets, http_errors, low_bandwidth, jitter, nothing_specific,
}
use lueur.Main.{OutputFormat, markdown, text, html, json, yaml}

pub record FormattedHtmlSlo : Type 0 where
  pub class : String
  pub formatted : String

pub record FormattedHtmlTableRow : Type 0 where
  pub endpoint : String
  pub total_faults : List String
  pub slo_99_200ms : FormattedHtmlSlo
  pub slo_95_500ms : FormattedHtmlSlo
  pub slo_90_1s : FormattedHtmlSlo
  pub slo_99_1_error : FormattedHtmlSlo
  pub slo_95_0_5_error : FormattedHtmlSlo

-- `colored` and `char::to_uppercase` on the first letter; a table; a template; two serializers.
pub record Renderers (F : Type 0) : Type 0 where
  pub cyan : String → String
  pub red : String → String
  pub yellow : String → String
  pub green : String → String
  pub capitalize : String → String
  pub table : (titles : List String) (rows : List (List String)) → String
  pub render : List FormattedHtmlTableRow → ReportOutput F → Result String String
  pub to_json : ReportOutput F → Result String String
  pub to_yaml : ReportOutput F → Result String String

-- `writeln!`
line : String → String
line s = s ++ "\n"

lines : List String → String
unfolding line
lines [] = ""
lines (s ∷ ss) = line s ++ lines ss

concat : List String → String
concat [] = ""
concat (s ∷ ss) = s ++ concat ss

module _ (fl : Float) (n : Numbers fl) (r : Renderers fl.F) where
  open fl use {F, lit, of_int, sub, mul, div}

  -- `dur` is in nanoseconds; `as_secs_f64` divides them.
  format_duration : ℕ → String
  format_duration dur =
      let secs = dur / 1_000_000_000 in
      let hours = secs / 3600 in
      let minutes = secs % 3600 / 60 in
      if ltb 0 (dur % 1_000_000_000)
      then n.show hours
        ++ "h "
        ++ n.show minutes
        ++ "m "
        ++ n.fixed 1 (
            sub (sub (div (of_int dur) (lit 1_000_000_000 0)) (mul (of_int hours) (lit 3600 0)))
              (mul (of_int minutes) (lit 60 0)))
        ++ "s"
      else n.show hours ++ "h " ++ n.show minutes ++ "m " ++ n.show (secs % 60) ++ "s"

  time_text : Option ℕ → String
  unfolding format_duration
  time_text none = ""
  time_text (some dur) = format_duration dur

  unfoldable pub format_slo_markdown : SloResult F → String
  unfolding time_text
  format_slo_markdown slo =
      if slo.breached
      then "❌ (+"
        ++ n.fixed 1 (get_or slo.breach_amount (lit 0 0))
        ++ get_or slo.breach_unit ""
        ++ "), "
        ++ time_text slo.breach_time
      else "✅"

  pub format_slo_text : SloResult F → String
  format_slo_text slo = format_slo_markdown slo

  unfoldable pub format_slo_html : SloResult F → FormattedHtmlSlo
  unfolding time_text
  format_slo_html slo =
      if slo.breached
      then record {
        class = "breached";
        formatted =
            "❌ (+"
            ++ n.fixed 1 (get_or slo.breach_amount (lit 0 0))
            ++ get_or slo.breach_unit ""
            ++ "), "
            ++ time_text slo.breach_time;
      }
      else record { class = "met"; formatted = "✅" }

  pub format_faults_markdown : List (FaultConfiguration F) → String
  unfolding concat
  format_faults_markdown faults = concat (map (λ f. "- " ++ Display.display fl n f) faults)

  format_faults_text : List (FaultConfiguration F) → String
  unfolding format_faults_markdown
  format_faults_text faults = format_faults_markdown faults

  format_faults_html : List (FaultConfiguration F) → List String
  format_faults_html faults = map (Display.display fl n) faults

  -- Both formatters of the summary, after their title.
  summary_lines : Summary → List String
  summary_lines summary =
      ("- **Total Test Cases:** " ++ r.cyan (n.show summary.total_tests))
      ∷ ("- **Failures:** " ++ r.red (n.show summary.total_failures))
      ∷ (if ltb 0 summary.total_failures
          then "- "
            ++ r.yellow "🔍 Recommendation"
            ++ ": Investigate the failed test cases to enhance your application's resilience."
          else "- "
            ++ r.green "🌟 Recommendation"
            ++ ": Excellent job! All test cases passed successfully.")
      ∷ []

  format_summary_markdown : Summary → String
  unfolding lines summary_lines
  format_summary_markdown summary = lines ("## Summary" ∷ summary_lines summary)

  format_summary_text : Summary → String
  unfolding lines summary_lines
  format_summary_text summary = lines ("\n## Summary" ∷ summary_lines summary)

  fault_line : FaultAnalysisItem → String
  fault_line fault =
      "- **" ++ r.capitalize fault.fault_type ++ "** occurred " ++ n.show fault.count ++ " times."

  format_fault_analysis_markdown : List FaultAnalysisItem → String
  unfolding lines fault_line
  format_fault_analysis_markdown faults = lines ("## Fault Type Analysis" ∷ map fault_line faults)

  format_fault_analysis_text : List FaultAnalysisItem → String
  unfolding lines fault_line
  format_fault_analysis_text faults = lines ("\n## Fault Type Analysis" ∷ map fault_line faults)

  -- The advice of `generate_fault_recommendations`.
  advice : Recommendation → String
  advice high_latency =
      r.yellow "🔧 Recommendation"
      ++ ": High latency issues detected frequently. Consider optimizing network calls or improving service scalability."
  advice lost_packets =
      r.yellow "🔧 Recommendation"
      ++ ": Packet loss observed in multiple endpoints. Investigate network stability and routing paths."
  advice http_errors =
      r.yellow "🔧 Recommendation"
      ++ ": Frequent HTTP errors detected. Review error handling and server configurations."
  advice low_bandwidth =
      r.yellow "🔧 Recommendation"
      ++ ": Bandwidth limitations impacting multiple endpoints. Consider upgrading network infrastructure or optimizing data transfer."
  advice jitter =
      r.yellow "🔧 Recommendation"
      ++ ": Jitter affecting endpoint performance. Implement measures to stabilize network latency."
  advice nothing_specific = "No specific recommendations based on fault types."

  recommendation_lines : List Recommendation → String
  unfolding lines advice
  recommendation_lines recommendations = lines (map (λ rec. "- " ++ advice rec) recommendations)

  unfoldable pub row_markdown : TableRow F → String
  unfolding format_faults_markdown
  row_markdown row =
      "| `"
      ++ row.endpoint
      ++ "` | "
      ++ format_faults_markdown row.total_faults
      ++ " | "
      ++ format_slo_markdown row.slo_99_200ms
      ++ " | "
      ++ format_slo_markdown row.slo_95_500ms
      ++ " | "
      ++ format_slo_markdown row.slo_90_1s
      ++ " | "
      ++ format_slo_markdown row.slo_99_1_error
      ++ " | "
      ++ format_slo_markdown row.slo_95_0_5_error
      ++ " |"

  generate_markdown_report : ReportOutput F → String
  unfolding lines line row_markdown format_summary_markdown format_fault_analysis_markdown
      recommendation_lines
  generate_markdown_report report =
      line "# Lueur Resilience Test Report\n"
      ++ line
          "| **Endpoint** | **Total Fault Injected** | **SLO: 99% < 200ms** | **SLO: 95% < 500ms** | **SLO: 90% < 1s** | **SLO: 99% < 1% Error Rate** | **SLO: 95% < 0.5% Error Rate** |"
      ++ line
          "|-------------|--------------------------|-----------------------|-----------------------|-----------------------|----------------------------------|-----------------------------------|"
      ++ lines (map row_markdown report.table)
      ++ line (format_summary_markdown report.summary)
      ++ line (format_fault_analysis_markdown report.fault_analysis)
      ++ line "\n## Recommendations"
      ++ recommendation_lines report.recommendations

  unfoldable pub row_text : TableRow F → List String
  unfolding format_faults_text format_slo_text
  row_text row =
      ("`" ++ row.endpoint ++ "`")
      ∷ format_faults_text row.total_faults
      ∷ format_slo_text row.slo_99_200ms
      ∷ format_slo_text row.slo_95_500ms
      ∷ format_slo_text row.slo_90_1s
      ∷ format_slo_text row.slo_99_1_error
      ∷ format_slo_text row.slo_95_0_5_error
      ∷ []

  titles : List String
  titles =
      "Endpoint" ∷ "Total Fault Injected" ∷ "SLO: 99% < 200ms" ∷ "SLO: 95% < 500ms"
      ∷ "SLO: 90% < 1s" ∷ "SLO: 99% < 1% Error Rate" ∷ "SLO: 95% < 0.5% Error Rate" ∷ []

  generate_text_report : ReportOutput F → String
  unfolding titles row_text format_summary_text format_fault_analysis_text recommendation_lines
  generate_text_report report =
      r.table titles (map row_text report.table)
      ++ format_summary_text report.summary
      ++ format_fault_analysis_text report.fault_analysis
      ++ "\n## Recommendations\n"
      ++ recommendation_lines report.recommendations

  unfoldable pub row_html : TableRow F → FormattedHtmlTableRow
  unfolding format_faults_html
  row_html row = record {
    endpoint = row.endpoint;
    total_faults = format_faults_html row.total_faults;
    slo_99_200ms = format_slo_html row.slo_99_200ms;
    slo_95_500ms = format_slo_html row.slo_95_500ms;
    slo_90_1s = format_slo_html row.slo_90_1s;
    slo_99_1_error = format_slo_html row.slo_99_1_error;
    slo_95_0_5_error = format_slo_html row.slo_95_0_5_error;
  }

  pub pretty_report : ReportOutput F → OutputFormat → Result String String
  unfolding generate_markdown_report generate_text_report row_html
  pretty_report report markdown = ok (generate_markdown_report report)
  pretty_report report text = ok (generate_text_report report)
  pretty_report report html = r.render (map row_html report.table) report
  pretty_report report json = r.to_json report
  pretty_report report yaml = r.to_yaml report
