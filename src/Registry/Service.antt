-- ===== src/Registry/Service.antt =====
-- registry/service.py: what a client of the registry calls for runs and scans. An operation that raises
-- has no result, and its session ends without a commit.
use robot_data_harness.Common.{
  ℕ, Bool, Option, some, List, [], ◌∷◌, ◌++◌, map, ◌>>=◌, get, codes, text_eq, sorted_by, eqb, ltb,
  if◌then◌else◌, String, string_eq,
}
use mathlib.Core.Option
use robot_data_harness.Registry.Tables.{find, delete_one, select_where}
use robot_data_harness.Registry.Schema.{
  RunRow, ValidatorResultRow, GateResultRow, ScanJobRow, Database,
}
use robot_data_harness.Registry.Records.{
  Platform, RunRecord, ArtifactRecord, ScanJobRecord, RunDetailRecord, run_record,
  validator_result_record, gate_result_record, artifact_record, scan_job_record,
}
use robot_data_harness.Registry.Datasets.{update_dataset_last_run}
use robot_data_harness.Registry.Runs.{
  RunFields, ValidationResult, QualityReport, ScanFields, run_key, scan_key, run_status, or_default,
  create_run_row, iter_artifacts,
}

-- The keyword arguments that a report gives to _create_run_row.
unfoldable pub report_fields :
    {F Json : Type 0} → QualityReport F Json → String → Option String → String → RunFields F Json
report_fields report dataset_version config_path output_dir = record {
  run_id = report.run_id;
  dataset_id = report.dataset_id;
  dataset_version = dataset_version;
  status = run_status report.status report.gate.status;
  started_at = report.started_at;
  finished_at = report.finished_at;
  duration_sec = report.duration_sec;
  config_path = config_path;
  output_dir = output_dir;
  report_json_path = get (codes "report_json") report.artifacts;
  report_html_path = get (codes "report_html") report.artifacts;
  metrics = report.metrics;
  errors = report.errors;
  warnings = report.warnings;
}

module _ {Json : Type 0} (platform : Platform Json) where
  unfoldable pub scan_row : ScanFields Json → Option ScanJobRow
  scan_row fields = do
    started_at ← platform.fromisoformat fields.started_at
    finished_at ← platform.fromisoformat fields.finished_at
    some (record {
      scan_id = fields.scan_id;
      root_uri = fields.root_uri;
      output_root = fields.output_root;
      status = fields.status;
      total = fields.total;
      succeeded = fields.succeeded;
      failed = fields.failed;
      skipped = fields.skipped;
      started_at = started_at;
      finished_at = finished_at;
      summary_json = platform.json_dumps fields.summary;
    })

  module _ {F : Type 0} where
    unfoldable pub validator_row : String → ValidationResult F Json → ValidatorResultRow F
    validator_row run_id validator = record {
      run_id = run_id;
      validator_name = validator.name;
      status = validator.status;
      duration_ms = validator.duration_ms;
      metrics_json = platform.json_dumps validator.metrics;
      messages_json = platform.json_dumps validator.messages;
    }

    unfoldable pub gate_row : QualityReport F Json → GateResultRow
    gate_row report = record {
      run_id = report.run_id;
      gate_status = or_default "SKIP" report.gate.status;
      failed_rules_json =
          platform.json_dumps (or_default (platform.json_list []) report.gate.failed_rules);
      warning_rules_json =
          platform.json_dumps (or_default (platform.json_list []) report.gate.warning_rules);
      policy_path = report.gate.policy_path;
    }

    -- The rows of validators, gate and artifacts that stand for a report.
    unfoldable pub add_report : QualityReport F Json → Database F → Database F
    add_report report db = record db {
      validator_results =
          db.validator_results ++ map (validator_row report.run_id) report.validators;
      gate_results = db.gate_results ++ gate_row report ∷ [];
      artifacts = db.artifacts ++ iter_artifacts platform report;
    }

    unfoldable pub create_run : RunFields F Json → Database F → Option (Database F)
    create_run fields db = create_run_row platform fields db

    unfoldable pub record_validation_run :
        ℕ
        → QualityReport F Json
        → String
        → Option String
        → String
        → Database F
        → Option (Database F)
    record_validation_run now report dataset_version config_path output_dir db = do
      db' ← create_run_row platform (report_fields report dataset_version config_path output_dir) db
      some (
          add_report report (
            update_dataset_last_run now report.dataset_id dataset_version
              (run_status report.status report.gate.status) report.run_id db'))

    unfoldable pub record_scan_job : ScanFields Json → Database F → Option (Database F)
    record_scan_job fields db = do
      row ← scan_row fields
      some (record db { scan_jobs = delete_one scan_key fields.scan_id db.scan_jobs ++ row ∷ [] })

    unfoldable pub get_scan_job : String → Database F → Option (ScanJobRecord Json)
    get_scan_job scan_id db =
        Option.map (scan_job_record platform) (find scan_key scan_id db.scan_jobs)

    unfoldable pub get_run : String → Database F → Option (RunRecord F Json)
    get_run run_id db = Option.map (run_record platform) (find run_key run_id db.runs)

    -- order_by(started_at.desc(), run_id.asc())
    pub list_runs : (String → String → Bool) → Database F → List (RunRecord F Json)
    list_runs text_lt db = map (run_record platform) (
        sorted_by
          (λ r q.
            if eqb r.started_at q.started_at
            then text_lt r.run_id q.run_id
            else ltb q.started_at r.started_at)
          db.runs)

    unfoldable pub list_run_artifacts : String → Database F → List ArtifactRecord
    list_run_artifacts run_id db =
        map artifact_record (select_where (λ row. row.run_id) run_id db.artifacts)

    unfoldable pub run_detail : String → Database F → RunRow F → RunDetailRecord F Json
    run_detail run_id db row = record {
      run = run_record platform row;
      validator_results =
          map (validator_result_record platform)
            (select_where (λ row. row.run_id) run_id db.validator_results);
      gate_results =
          map (gate_result_record platform)
            (select_where (λ row. row.run_id) run_id db.gate_results);
      artifacts = map artifact_record (select_where (λ row. row.run_id) run_id db.artifacts);
    }

    unfoldable pub get_run_detail : String → Database F → Option (RunDetailRecord F Json)
    get_run_detail run_id db = Option.map (run_detail run_id db) (find run_key run_id db.runs)
