-- ===== src/Registry/Samples.antt =====
-- A registry with two datasets, a run that is recorded twice, and a scan with a date that is none.
use robot_data_harness.Common.{
  ℕ, ◌≡◌, refl, none, some, List, [], ◌∷◌, length, map, String, codes, if◌then◌else◌, ◌==◌, arith,
}
use robot_data_harness.Registry.Schema.{Database, empty_database}
use robot_data_harness.Registry.Records.{Platform, RunDetailRecord}
use robot_data_harness.Registry.Datasets.{DatasetFields}
use robot_data_harness.Registry.Runs.{RunFields, QualityReport, ScanFields}
use robot_data_harness.Registry.Service.{record_validation_run, get_run_detail}
use robot_data_harness.Registry.Views.{
  Call, upserts, updates_last_run, creates_run, records_run, records_scan, run_calls, view_of,
  replay,
}
use robot_data_harness.Registry.Views.Valid.{IsValid}
use robot_data_harness.Registry.Views.Keeps.{run_calls-IsValid}
use robot_data_harness.Registry.Views.Calls.{run_calls_refines}
use robot_data_harness.Registry.Views.ReadBack.{
  get_run_detail-record_validation_run, validation_of, worse_status,
}

-- JSON values are their texts, and the only texts that are no dates are empty.
abbrev platform : Platform String
platform = record {
  json_dumps = λ value. value;
  json_loads = λ value. value;
  json_list = λ values. "[]";
  fromisoformat = λ date. if date == "" then none else some 1;
  isoformat = λ time. "2024-01-01";
  local_path_of = λ uri. none;
  size_of = λ path. some 7;
}

abbrev fields : DatasetFields ℕ
fields = record {
  dataset_id = "aloha";
  version = "v1";
  task_type = some "pick";
  robot_type = none;
  pose_format = some "eexyzxyzw";
  storage_uri = some "s3://lake/aloha";
  local_path = none;
  num_samples = some 50;
  duration_sec = some 12;
  fps = some 30;
  last_status = none;
  last_run_id = none;
}

abbrev run_fields : RunFields ℕ String
run_fields = record {
  run_id = "r1";
  dataset_id = "aloha";
  dataset_version = "v1";
  status = "PASS";
  started_at = "2024-01-01";
  finished_at = "2024-01-02";
  duration_sec = 3;
  config_path = none;
  output_dir = "out";
  report_json_path = none;
  report_html_path = none;
  metrics = "{}";
  errors = "[]";
  warnings = "[]";
}

abbrev report : QualityReport ℕ String
report = record {
  run_id = "r1";
  dataset_id = "aloha";
  status = "PASS";
  started_at = "2024-01-01";
  finished_at = "2024-01-02";
  duration_sec = 3;
  metrics = "{\"frames\": 50}";
  validators =
      record {
        name = "schema";
        status = "PASS";
        duration_ms = some 2;
        metrics = "{}";
        messages = "[]";
      }
      ∷ [];
  artifacts = (codes "report_json_uri", codes "s3://lake/r1.json") ∷ [];
  plots = (codes "pose", codes "s3://lake/pose.png") ∷ [];
  warnings = "[]";
  errors = "[]";
  gate = record {
    status = some "WARN";
    failed_rules = none;
    warning_rules = none;
    policy_path = none;
  };
}

abbrev scan : ScanFields String
scan = record {
  scan_id = "s1";
  root_uri = "s3://lake";
  output_root = "out";
  status = "PASS";
  total = 1;
  succeeded = 1;
  failed = 0;
  skipped = 0;
  started_at = "";
  finished_at = "2024-01-02";
  summary = "{}";
}

abbrev calls : List (Call ℕ String)
calls =
    upserts 1 fields
    ∷ creates_run run_fields
    ∷ records_run 2 report "v1" none "out"
    ∷ records_scan scan
    ∷ updates_last_run 3 "other" "v1" "FAIL" "r2"
    ∷ []

empty_database-IsValid : IsValid (empty_database {F = ℕ})
empty_database-IsValid = record {
  datasets = λ k. omega arith;
  runs = λ k. omega arith;
  scans = λ k. omega arith;
  validator_results = tt;
  gate_results = tt;
  artifacts = tt;
}

run_calls_refines_example :
    view_of platform (run_calls platform calls empty_database)
    ≡ replay platform calls (view_of platform empty_database)
run_calls_refines_example = run_calls_refines platform calls empty_database empty_database-IsValid

run_calls-IsValid_example : IsValid (run_calls platform calls (empty_database {F = ℕ}))
run_calls-IsValid_example = run_calls-IsValid platform calls empty_database empty_database-IsValid

get_run_detail-record_validation_run_example :
    (db' : Database ℕ) × (detail : RunDetailRecord ℕ String) × (record_validation_run platform 4
        report "v1" none "out"
        (run_calls platform calls empty_database)
      ≡ some db')
    × (get_run_detail platform report.run_id db' ≡ some detail)
    × (detail.run.status ≡ worse_status report.status report.gate.status)
    × (detail.run.metrics_json ≡ report.metrics)
    × (detail.run.errors_json ≡ report.errors)
    × (detail.run.warnings_json ≡ report.warnings)
    × (map validation_of detail.validator_results ≡ report.validators)
    × (length detail.gate_results ≡ 1)
get_run_detail-record_validation_run_example =
    get_run_detail-record_validation_run platform 4 report "v1" none "out"
      (run_calls platform calls empty_database) 1 1 (λ value. refl)
      (run_calls-IsValid platform calls empty_database empty_database-IsValid) refl refl
