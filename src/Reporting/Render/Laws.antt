-- ===== src/Reporting/Render/Laws.antt =====
-- How breaches are rendered.
use Prim.Native.String.{◌++◌}
use lueur.Prelude.{◌≡◌, refl, false, some, arith, if◌then◌else◌}
use lueur.Prelude.Float.{Float}
use lueur.Types.FaultConfiguration.Display.{Numbers}
use lueur.Reporting.Items.{
  ReportItemHttpExpectation, ReportItemHttpResult, ReportItemExpectation, ReportItemResult, success,
}
use lueur.Reporting.Slo.{missed, error_rate}
use lueur.Reporting.Output.{Counters, SloResult, count_of, table_row}
use lueur.Reporting.Output.Flags.{error_rate_not_flagged}
use lueur.Reporting.Render.{
  Renderers, FormattedHtmlSlo, format_slo_markdown, format_slo_html, format_faults_markdown,
  row_markdown, row_html, format_slo_text,
}

module _ (fl : Float) (n : Numbers fl) (r : Renderers fl.F) where
  open fl use {F, lit, le}

  abbrev pub met_cell : FormattedHtmlSlo
  met_cell = record { class = "met"; formatted = "✅" }

  unbreached :
      (slo : SloResult F)
      → slo.breached ≡ false
      → (format_slo_markdown fl n r slo ≡ "✅") × (format_slo_html fl n r slo ≡ met_cell)
  unfolding format_slo_markdown format_slo_html
  unbreached slo e = ground arith

  -- The three renderings of a cell agree: the text is that of Markdown, and so is the text in HTML,
  -- whose class is "breached" exactly for the flagged cells.
  pub format_slo-same :
      (slo : SloResult F)
      → (format_slo_text fl n r slo ≡ format_slo_markdown fl n r slo)
        × ((format_slo_html fl n r slo).formatted ≡ format_slo_markdown fl n r slo)
        × ((format_slo_html fl n r slo).class ≡ (if slo.breached then "breached" else "met"))
  unfolding format_slo_text format_slo_markdown format_slo_html
  format_slo-same slo = ground arith

  -- An item that met its expectation, at an endpoint whose error rate is over 1%: its evaluation
  -- carries the missed mark, yet all five cells of its row are rendered as met, in Markdown and in
  -- HTML.
  pub missed_rendered_met :
      (requests errors : Counters) (item : ReportItemResult F)
      (wanted : ReportItemHttpExpectation F) (result : ReportItemHttpResult F)
      → item.expect ≡ some (ReportItemExpectation.http wanted (some result))
      → result.decision ≡ success
      → le
          (error_rate fl (count_of item.address requests) (count_of item.address errors))
          (lit 10 1)
        ≡ false
      → ((table_row fl requests errors item).slo_99_1_error.status ≡ missed)
        × (row_markdown fl n r (table_row fl requests errors item)
            ≡ "| `"
              ++ (table_row fl requests errors item).endpoint
              ++ "` | "
              ++ format_faults_markdown fl n r (table_row fl requests errors item).total_faults
              ++ " | "
              ++ "✅"
              ++ " | "
              ++ "✅"
              ++ " | "
              ++ "✅"
              ++ " | "
              ++ "✅"
              ++ " | "
              ++ "✅"
              ++ " |")
        × ((row_html fl n r (table_row fl requests errors item)).slo_99_200ms ≡ met_cell)
        × ((row_html fl n r (table_row fl requests errors item)).slo_95_500ms ≡ met_cell)
        × ((row_html fl n r (table_row fl requests errors item)).slo_90_1s ≡ met_cell)
        × ((row_html fl n r (table_row fl requests errors item)).slo_99_1_error ≡ met_cell)
        × ((row_html fl n r (table_row fl requests errors item)).slo_95_0_5_error ≡ met_cell)
  unfolding row_markdown row_html
  missed_rendered_met requests errors item wanted result e s over =
      let row = table_row fl requests errors item in
      let (status, f1, f2, f3, f4, f5) =
        error_rate_not_flagged fl requests errors item wanted result e s over in
      (
        status,
        rw
            (
              (unbreached row.slo_99_200ms f2).0,
              (unbreached row.slo_95_500ms f3).0,
              (unbreached row.slo_90_1s f4).0,
              (unbreached row.slo_99_1_error f1).0,
              (unbreached row.slo_95_0_5_error f5).0,
            )
            refl,
        (unbreached row.slo_99_200ms f2).1,
        (unbreached row.slo_95_500ms f3).1,
        (unbreached row.slo_90_1s f4).1,
        (unbreached row.slo_99_1_error f1).1,
        (unbreached row.slo_95_0_5_error f5).1,
      )
