-- ===== src/Registry/Runs.antt =====
-- registry/service.py: the operations on the runs and the scans. An operation that raises has no result,
-- and its session ends without a commit. The paths that are resolved are arguments.
use robot_data_harness.Common.{
  ℕ, Bool, not, ◌&&◌, Option, none, some, List, [], ◌∷◌, ◌++◌, if◌then◌else◌, ◌>>=◌, String, ◌==◌,
  one_of, any, Text, codes, text_eq, text_lt, Dict, get, sorted_by, string_eq, pair_eq,
}
use robot_data_harness.Registry.Tables.{delete_one, delete_where}
use robot_data_harness.Registry.Schema.{RunRow, ArtifactRow, ScanJobRow, Database}
use robot_data_harness.Registry.Records.{Platform}

abbrev pub run_key : {F : Type 0} → RunRow F → String
run_key row = row.run_id

abbrev pub scan_key : ScanJobRow → String
scan_key row = row.scan_id

-- The arguments of create_run.
pub record RunFields (F Json : Type 0) : Type 0 where
  pub run_id : String
  pub dataset_id : String
  pub dataset_version : String
  pub status : String
  pub started_at : String
  pub finished_at : String
  pub duration_sec : F
  pub config_path : Option String
  pub output_dir : String
  pub report_json_path : Option Text
  pub report_html_path : Option Text
  pub metrics : Json
  pub errors : Json
  pub warnings : Json

-- The entry of a validator in a report; `duration_ms` is details["duration_ms"], when it is there.
pub record ValidationResult (F Json : Type 0) : Type 0 where
  pub name : String
  pub status : String
  pub duration_ms : Option F
  pub metrics : Json
  pub messages : Json

-- The entries of a report's gate, each of which may be missing. An entry that is there is not None.
pub record GateSection (Json : Type 0) : Type 0 where
  pub status : Option String
  pub failed_rules : Option Json
  pub warning_rules : Option Json
  pub policy_path : Option String

-- The fields of a report that the registry reads. `artifacts` has its texts and `plots` the dictionary
-- under the key "plots", which is empty when the report has none.
pub record QualityReport (F Json : Type 0) : Type 0 where
  pub run_id : String
  pub dataset_id : String
  pub status : String
  pub started_at : String
  pub finished_at : String
  pub duration_sec : F
  pub metrics : Json
  pub validators : List (ValidationResult F Json)
  pub artifacts : Dict Text Text
  pub plots : Dict Text Text
  pub warnings : Json
  pub errors : Json
  pub gate : GateSection Json

pub record ScanFields (Json : Type 0) : Type 0 where
  pub scan_id : String
  pub root_uri : String
  pub output_root : String
  pub status : String
  pub total : ℕ
  pub succeeded : ℕ
  pub failed : ℕ
  pub skipped : ℕ
  pub started_at : String
  pub finished_at : String
  pub summary : Json

-- The status of a run: the gate can make that of the report worse.
unfoldable pub run_status : String → Option String → String
run_status status none = status
run_status status (some gate_status) =
    if gate_status == "FAIL"
    then "FAIL"
    else if gate_status == "WARN" && not (status == "FAIL")
    then "WARN"
    else status

abbrev pub or_default {ℓ} : {A : Type ℓ} → A → Option A → A
or_default default none = default
or_default default (some value) = value

module _ {F : Type 0} where
  unfoldable pub delete_run_related : String → Database F → Database F
  delete_run_related run_id db = record db {
    validator_results = delete_where (λ row. row.run_id) run_id db.validator_results;
    gate_results = delete_where (λ row. row.run_id) run_id db.gate_results;
    artifacts = delete_where (λ row. row.run_id) run_id db.artifacts;
    runs = delete_one run_key run_id db.runs;
  }

  unfoldable pub add_run : RunRow F → Database F → Database F
  add_run row db = record db { runs = db.runs ++ row ∷ [] }

  unfoldable pub has_successful_run : String → String → Database F → Bool
  has_successful_run dataset_id version db =
      any
        (λ row.
          row.dataset_id == dataset_id
          && (row.dataset_version == version && one_of row.status ("PASS" ∷ "WARN" ∷ [])))
        db.runs

-- `local_path or …`: an empty text counts as none.
abbrev pub or_path : Option Text → Option Text → Option Text
or_path none other = other
or_path (some []) other = other
or_path (some (c ∷ t)) other = some (c ∷ t)

module _ {Json : Type 0} (platform : Platform Json) where
  -- A missing or empty address gives no artifact.
  unfoldable pub artifact_of : String → Text → Option Text → Option Text → List ArtifactRow
  artifact_of run_id artifact_type none local_path = []
  artifact_of run_id artifact_type (some []) local_path = []
  artifact_of run_id artifact_type (some (c ∷ t)) local_path =
      let path = or_path local_path (platform.local_path_of (c ∷ t)) in
      record {
        run_id = run_id;
        artifact_type = artifact_type;
        artifact_uri = c ∷ t;
        local_path = path;
        size_bytes = path >>= platform.size_of;
      }
      ∷ []

  unfoldable pub plot_artifacts : String → Dict Text Text → List ArtifactRow
  plot_artifacts run_id [] = []
  plot_artifacts run_id ((plot_name, artifact_uri) ∷ plots) =
      artifact_of run_id (codes "plot:" ++ plot_name) (some artifact_uri) none
      ++ plot_artifacts run_id plots

  module _ {F : Type 0} where
    -- _iter_artifacts, with the run's id that the caller gives to each row.
    unfoldable pub iter_artifacts : QualityReport F Json → List ArtifactRow
    iter_artifacts report =
        let artifacts = report.artifacts in
        artifact_of report.run_id (codes "report_json") (get (codes "report_json_uri") artifacts)
          (get (codes "report_json") artifacts)
        ++ (artifact_of report.run_id (codes "report_html")
              (get (codes "report_html_uri") artifacts) (get (codes "report_html") artifacts)
            ++ (artifact_of report.run_id (codes "gate_report")
                  (get (codes "gate_report_uri") artifacts) (get (codes "gate_report") artifacts)
                ++ plot_artifacts report.run_id (sorted_by (λ p q. text_lt p.0 q.0) report.plots)))

    -- The row of a run; ValueError (none) when one of its dates is no date.
    unfoldable pub run_row : RunFields F Json → Option (RunRow F)
    run_row fields = do
      started_at ← platform.fromisoformat fields.started_at
      finished_at ← platform.fromisoformat fields.finished_at
      some (record {
        run_id = fields.run_id;
        dataset_id = fields.dataset_id;
        dataset_version = fields.dataset_version;
        status = fields.status;
        started_at = started_at;
        finished_at = finished_at;
        duration_sec = fields.duration_sec;
        config_path = fields.config_path;
        output_dir = fields.output_dir;
        report_json_path = fields.report_json_path;
        report_html_path = fields.report_html_path;
        metrics_json = platform.json_dumps fields.metrics;
        errors_json = platform.json_dumps fields.errors;
        warnings_json = platform.json_dumps fields.warnings;
      })

    unfoldable pub create_run_row : RunFields F Json → Database F → Option (Database F)
    create_run_row fields db = do
      row ← run_row fields
      some (add_run row (delete_run_related fields.run_id db))
