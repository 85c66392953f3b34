-- ===== src/Reporting/Save.antt =====
-- `Report::save` of lueur-cli/src/reporting.rs. The file and the serializers, which write to it, are
-- parameters; `ends_with` is `str::ends_with`.
use Prim.Native.String.{String}
use lueur.Prelude.{Bool, ◌||◌, List, Result, ok, err, if◌then◌else◌}
use lueur.Errors.{ScenarioError, report_error}
use lueur.Reporting.Items.{ReportItemResult}

pub record RemotePluginInfo : Type 0 where
  pub name : String
  pub version : String
  pub author : String
  pub url : String

pub record Report (F : Type 0) : Type 0 where
  pub plugins : List RemotePluginInfo
  pub items : List (ReportItemResult F)

pub record Writers (F : Type 0) : Type 0 where
  pub ends_with : String → String → Bool
  pub create : String → Result (Unit {0}) String
  pub to_json : Report F → Result (Unit {0}) String
  pub to_yaml : Report F → Result (Unit {0}) String

written : Result (Unit {0}) String → Result (Unit {0}) ScenarioError
written (ok u) = ok u
written (err e) = err (report_error e)

-- The file is created before its extension is looked at.
unfoldable pub save :
    {F : Type 0} → Writers F → Report F → (path : String) → Result (Unit {0}) ScenarioError
unfolding written
save w report path = elim (w.create path) [
  | err e ↦ err (ScenarioError.io_error e)
  | ok file ↦
      if w.ends_with path ".json"
      then written (w.to_json report)
      else if w.ends_with path ".yaml" || w.ends_with path ".yml"
      then written (w.to_yaml report)
      else err (report_error "Unsupported report file format. Use .json or .yaml")
]
