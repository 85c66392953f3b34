-- ===== src/Reporting/Output/Flags.antt =====
-- The `breached` flags of a row.
use lueur.Prelude.{◌≡◌, true, false, some, arith}
use lueur.Prelude.Float.{Float}
use lueur.Reporting.Items.{
  ReportItemExpectation, ReportItemHttpExpectation, ReportItemHttpResult, ReportItemResult, success,
  is_success,
}
use lueur.Reporting.Slo.{missed, evaluate_latency_slo, evaluate_error_rate_slo, error_rate}
use lueur.Reporting.Output.{Counters, count_of, table_row}

module _ (fl : Float) where
  open fl use {F, lit, le}

  -- An item that met its expectation, at an endpoint whose error rate is over 1%: the cell for the
  -- error rate carries the missed mark, yet none of the row's cells is flagged as breached.
  pub error_rate_not_flagged :
      (requests errors : Counters) (item : ReportItemResult F)
      (wanted : ReportItemHttpExpectation F) (result : ReportItemHttpResult F)
      → item.expect ≡ some (ReportItemExpectation.http wanted (some result))
      → result.decision ≡ success
      → le
          (error_rate fl (count_of item.address requests) (count_of item.address errors))
          (lit 10 1)
        ≡ false
      → ((table_row fl requests errors item).slo_99_1_error.status ≡ missed)
        × ((table_row fl requests errors item).slo_99_1_error.breached ≡ false)
        × ((table_row fl requests errors item).slo_99_200ms.breached ≡ false)
        × ((table_row fl requests errors item).slo_95_500ms.breached ≡ false)
        × ((table_row fl requests errors item).slo_90_1s.breached ≡ false)
        × ((table_row fl requests errors item).slo_95_0_5_error.breached ≡ false)
  unfolding table_row evaluate_latency_slo evaluate_error_rate_slo
  error_rate_not_flagged requests errors item wanted result e s over = ground arith

  -- Conversely, one failed item flags all five cells of its row, whatever the response time and the
  -- error rate.
  pub failure_flags_all :
      (requests errors : Counters) (item : ReportItemResult F)
      (wanted : ReportItemHttpExpectation F) (result : ReportItemHttpResult F)
      → item.expect ≡ some (ReportItemExpectation.http wanted (some result))
      → is_success result.decision ≡ false
      → ((table_row fl requests errors item).slo_99_200ms.breached ≡ true)
        × ((table_row fl requests errors item).slo_95_500ms.breached ≡ true)
        × ((table_row fl requests errors item).slo_90_1s.breached ≡ true)
        × ((table_row fl requests errors item).slo_99_1_error.breached ≡ true)
        × ((table_row fl requests errors item).slo_95_0_5_error.breached ≡ true)
  unfolding table_row evaluate_latency_slo
  failure_flags_all requests errors item wanted result e s = ground arith
