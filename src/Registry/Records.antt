-- ===== src/Registry/Records.antt =====
-- registry/models.py: the records that the service returns, made from the rows. The JSON encoder, the
-- texts of the dates, the parser of addresses and the sizes of files are an interface.
use robot_data_harness.Common.{ℕ, Option, List, String, Text}
use robot_data_harness.Registry.Schema.{
  DatasetRow, RunRow, ValidatorResultRow, GateResultRow, ArtifactRow, ScanJobRow,
}

-- `json_list` is the JSON value of a list; `fromisoformat` raises ValueError (none) on other texts;
-- `local_path_of` is the path of an address whose scheme is "file"; `size_of` that of a file that exists.
pub record Platform (Json : Type 0) : Type 0 where
  pub json_dumps : Json → String
  pub json_loads : String → Json
  pub json_list : List Json → Json
  pub fromisoformat : String → Option ℕ
  pub isoformat : ℕ → String
  pub local_path_of : Text → Option Text
  pub size_of : Text → Option ℕ

pub record DatasetRecord (F : Type 0) : Type 0 where
  pub dataset_id : String
  pub version : String
  pub task_type : Option String
  pub robot_type : Option String
  pub pose_format : Option String
  pub storage_uri : Option String
  pub local_path : Option String
  pub num_samples : Option ℕ
  pub duration_sec : Option F
  pub fps : Option F
  pub created_at : String
  pub updated_at : String
  pub last_status : Option String
  pub last_run_id : Option String

pub record RunRecord (F Json : Type 0) : Type 0 where
  pub run_id : String
  pub dataset_id : String
  pub dataset_version : String
  pub status : String
  pub started_at : String
  pub finished_at : String
  pub duration_sec : F
  pub config_path : Option String
  pub output_dir : String
  pub report_json_path : Option Text
  pub report_html_path : Option Text
  pub metrics_json : Json
  pub errors_json : Json
  pub warnings_json : Json

pub record ValidatorResultRecord (F Json : Type 0) : Type 0 where
  pub run_id : String
  pub validator_name : String
  pub status : String
  pub duration_ms : Option F
  pub metrics_json : Json
  pub messages_json : Json

pub record GateResultRecord (Json : Type 0) : Type 0 where
  pub run_id : String
  pub gate_status : String
  pub failed_rules_json : Json
  pub warning_rules_json : Json
  pub policy_path : Option String

pub record ArtifactRecord : Type 0 where
  pub run_id : String
  pub artifact_type : Text
  pub artifact_uri : Text
  pub local_path : Option Text
  pub size_bytes : Option ℕ

pub record ScanJobRecord (Json : Type 0) : Type 0 where
  pub scan_id : String
  pub root_uri : String
  pub output_root : String
  pub status : String
  pub total : ℕ
  pub succeeded : ℕ
  pub failed : ℕ
  pub skipped : ℕ
  pub started_at : String
  pub finished_at : String
  pub summary_json : Json

pub record RunDetailRecord (F Json : Type 0) : Type 0 where
  pub run : RunRecord F Json
  pub validator_results : List (ValidatorResultRecord F Json)
  pub gate_results : List (GateResultRecord Json)
  pub artifacts : List ArtifactRecord

module _ {F Json : Type 0} (platform : Platform Json) where
  unfoldable pub dataset_record : DatasetRow F → DatasetRecord F
  dataset_record row = record {
    dataset_id = row.dataset_id;
    version = row.version;
    task_type = row.task_type;
    robot_type = row.robot_type;
    pose_format = row.pose_format;
    storage_uri = row.storage_uri;
    local_path = row.local_path;
    num_samples = row.num_samples;
    duration_sec = row.duration_sec;
    fps = row.fps;
    created_at = platform.isoformat row.created_at;
    updated_at = platform.isoformat row.updated_at;
    last_status = row.last_status;
    last_run_id = row.last_run_id;
  }

  unfoldable pub run_record : RunRow F → RunRecord F Json
  run_record row = record {
    run_id = row.run_id;
    dataset_id = row.dataset_id;
    dataset_version = row.dataset_version;
    status = row.status;
    started_at = platform.isoformat row.started_at;
    finished_at = platform.isoformat row.finished_at;
    duration_sec = row.duration_sec;
    config_path = row.config_path;
    output_dir = row.output_dir;
    report_json_path = row.report_json_path;
    report_html_path = row.report_html_path;
    metrics_json = platform.json_loads row.metrics_json;
    errors_json = platform.json_loads row.errors_json;
    warnings_json = platform.json_loads row.warnings_json;
  }

  unfoldable pub validator_result_record : ValidatorResultRow F → ValidatorResultRecord F Json
  validator_result_record row = record {
    run_id = row.run_id;
    validator_name = row.validator_name;
    status = row.status;
    duration_ms = row.duration_ms;
    metrics_json = platform.json_loads row.metrics_json;
    messages_json = platform.json_loads row.messages_json;
  }

module _ {Json : Type 0} (platform : Platform Json) where
  unfoldable pub gate_result_record : GateResultRow → GateResultRecord Json
  gate_result_record row = record {
    run_id = row.run_id;
    gate_status = row.gate_status;
    failed_rules_json = platform.json_loads row.failed_rules_json;
    warning_rules_json = platform.json_loads row.warning_rules_json;
    policy_path = row.policy_path;
  }

  unfoldable pub scan_job_record : ScanJobRow → ScanJobRecord Json
  scan_job_record row = record {
    scan_id = row.scan_id;
    root_uri = row.root_uri;
    output_root = row.output_root;
    status = row.status;
    total = row.total;
    succeeded = row.succeeded;
    failed = row.failed;
    skipped = row.skipped;
    started_at = platform.isoformat row.started_at;
    finished_at = platform.isoformat row.finished_at;
    summary_json = platform.json_loads row.summary_json;
  }

unfoldable pub artifact_record : ArtifactRow → ArtifactRecord
artifact_record row = record {
  run_id = row.run_id;
  artifact_type = row.artifact_type;
  artifact_uri = row.artifact_uri;
  local_path = row.local_path;
  size_bytes = row.size_bytes;
}
