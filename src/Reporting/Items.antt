-- ===== src/Reporting/Items.antt =====
-- The records of lueur-cli/src/reporting.rs that a scenario run fills.
use lueur.Prelude.{String, ℕ, Bool, true, false, Option, List}
use lueur.Event.{FaultEvent}
use lueur.Scenario.Lifecycle.{DnsTiming}
use lueur.Types.FaultConfiguration.{FaultConfiguration}

pub data ReportItemExpectationDecision : Type 0 where
  success failure unknown : ReportItemExpectationDecision

-- The derived `PartialEq`.
abbrev pub is_success : ReportItemExpectationDecision → Bool
is_success success = true
is_success _ = false

abbrev pub is_failure : ReportItemExpectationDecision → Bool
is_failure failure = true
is_failure _ = false

pub record ReportItemHttpExpectation (F : Type 0) : Type 0 where
  pub status_code : Option ℕ
  pub response_time_under : Option F

pub record ReportItemHttpResult (F : Type 0) : Type 0 where
  pub status_code : Option ℕ
  pub response_time : Option F
  pub decision : ReportItemExpectationDecision

pub data ReportItemExpectation (F : Type 0) : Type 0 where
  http :
      (wanted : ReportItemHttpExpectation F) (got : Option (ReportItemHttpResult F))
      → ReportItemExpectation F

pub data ReportItemProtocol : Type 0 where
  http : (code body_length : ℕ) → ReportItemProtocol

pub record ReportItemMetricsFaults (F : Type 0) : Type 0 where
  pub url : String
  pub applied : Option (List (FaultEvent F))

pub record ReportItemMetrics (F : Type 0) : Type 0 where
  pub dns : List (DnsTiming F)
  pub protocol : Option ReportItemProtocol
  pub ttfb : F
  pub total_time : F
  pub faults : List (ReportItemMetricsFaults F)

-- The target's address is the URL that was called.
pub record ReportItemResult (F : Type 0) : Type 0 where
  pub address : String
  pub expect : Option (ReportItemExpectation F)
  pub faults : List (FaultConfiguration F)
  pub metrics : Option (ReportItemMetrics F)
  pub errors : List String
  pub total_time : F
