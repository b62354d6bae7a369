-- ===== src/Registry/Schema.antt =====
-- registry/schema.py: the rows. A datetime is its number of microseconds; F is the type of a float, which
-- the registry only stores. The rows' ids are their places in the tables, and the `created_at` that the
-- database fills in by itself is left out.
use robot_data_harness.Common.{ℕ, Option, List, [], String, Text}

pub record DatasetRow (F : Type 0) : Type 0 where
  pub dataset_id : String
  pub version : String
  pub task_type : Option String
  pub robot_type : Option String
  pub pose_format : Option String
  pub storage_uri : Option String
  pub local_path : Option String
  pub num_samples : Option ℕ
  pub duration_sec : Option F
  pub fps : Option F
  pub created_at : ℕ
  pub updated_at : ℕ
  pub last_status : Option String
  pub last_run_id : Option String

pub record RunRow (F : Type 0) : Type 0 where
  pub run_id : String
  pub dataset_id : String
  pub dataset_version : String
  pub status : String
  pub started_at : ℕ
  pub finished_at : ℕ
  pub duration_sec : F
  pub config_path : Option String
  pub output_dir : String
  pub report_json_path : Option Text
  pub report_html_path : Option Text
  pub metrics_json : String
  pub errors_json : String
  pub warnings_json : String

pub record ValidatorResultRow (F : Type 0) : Type 0 where
  pub run_id : String
  pub validator_name : String
  pub status : String
  pub duration_ms : Option F
  pub metrics_json : String
  pub messages_json : String

pub record GateResultRow : Type 0 where
  pub run_id : String
  pub gate_status : String
  pub failed_rules_json : String
  pub warning_rules_json : String
  pub policy_path : Option String

pub record ArtifactRow : Type 0 where
  pub run_id : String
  pub artifact_type : Text
  pub artifact_uri : Text
  pub local_path : Option Text
  pub size_bytes : Option ℕ

pub record ScanJobRow : Type 0 where
  pub scan_id : String
  pub root_uri : String
  pub output_root : String
  pub status : String
  pub total : ℕ
  pub succeeded : ℕ
  pub failed : ℕ
  pub skipped : ℕ
  pub started_at : ℕ
  pub finished_at : ℕ
  pub summary_json : String

-- The database: its tables.
pub record Database (F : Type 0) : Type 0 where
  pub datasets : List (DatasetRow F)
  pub runs : List (RunRow F)
  pub validator_results : List (ValidatorResultRow F)
  pub gate_results : List GateResultRow
  pub artifacts : List ArtifactRow
  pub scan_jobs : List ScanJobRow

abbrev pub empty_database : {F : Type 0} → Database F
empty_database = record {
  datasets = [];
  runs = [];
  validator_results = [];
  gate_results = [];
  artifacts = [];
  scan_jobs = [];
}
