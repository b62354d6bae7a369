-- ===== src/Registry/Views.antt =====
-- The registry as its clients see it: what each key reads. The calls as changes of these readings.
pub mod Refines
pub mod Rows
pub mod Valid
pub mod Keeps
pub mod Calls
pub mod ReadBack
use robot_data_harness.Common.{
  ℕ, Bool, Option, none, some, List, [], ◌∷◌, map, String, Eq, string_eq, pair_eq, if◌then◌else◌,
}
use robot_data_harness.Registry.Schema.{Database, RunRow, ScanJobRow}
use robot_data_harness.Registry.Records.{
  Platform, DatasetRecord, RunDetailRecord, ScanJobRecord, run_record, validator_result_record,
  gate_result_record, artifact_record, scan_job_record,
}
use robot_data_harness.Registry.Datasets.{
  DatasetFields, or_old, upsert_dataset, update_dataset_last_run, get_dataset,
}
use robot_data_harness.Registry.Runs.{
  RunFields, QualityReport, ScanFields, run_row, run_status, iter_artifacts, or_default,
}
use robot_data_harness.Registry.Service.{
  create_run, record_validation_run, record_scan_job, get_run_detail, get_scan_job, report_fields,
  validator_row, gate_row, scan_row,
}

-- The calls that change the registry; a number is the time of the call.
pub data Call (F Json : Type 0) : Type 0 where
  upserts : ℕ → DatasetFields F → Call F Json
  updates_last_run : ℕ → String → String → String → String → Call F Json
  creates_run : RunFields F Json → Call F Json
  records_run : ℕ → QualityReport F Json → String → Option String → String → Call F Json
  records_scan : ScanFields Json → Call F Json

-- What the registry answers for each dataset and version, each run and each scan.
pub record View (F Json : Type 0) : Type 0 where
  pub dataset : String × String → Option (DatasetRecord F)
  pub run : String → Option (RunDetailRecord F Json)
  pub scan : String → Option (ScanJobRecord Json)

-- The function f with another value at k.
abbrev pub update {ℓ κ} : {K : Type ℓ} {V : Type κ} ⦃e : Eq K⦄ → K → V → (K → V) → K → V
update ⦃e⦄ k v f j = if e.beq k j then v else f j

-- A run that replaces what its id read before.
abbrev pub with_run :
    {F Json : Type 0} → String → RunDetailRecord F Json → View F Json → View F Json
with_run run_id detail v = record v { run = update run_id (some detail) v.run }

-- The state after a call: as before, when the call raised.
abbrev pub committed {ℓ} : {A : Type ℓ} → A → Option A → A
committed old none = old
committed old (some new) = new

module _ {F Json : Type 0} (platform : Platform Json) where
  unfoldable pub view_of : Database F → View F Json
  view_of db = record {
    dataset = λ key. get_dataset platform key.0 (some key.1) db;
    run = λ run_id. get_run_detail platform run_id db;
    scan = λ scan_id. get_scan_job platform scan_id db;
  }

  unfoldable pub call : Call F Json → Database F → Option (Database F)
  call (upserts now fields) db = some (upsert_dataset now fields db)
  call (updates_last_run now dataset_id version status run_id) db =
      some (update_dataset_last_run now dataset_id version status run_id db)
  call (creates_run fields) db = create_run platform fields db
  call (records_run now report version config_path output_dir) db =
      record_validation_run platform now report version config_path output_dir db
  call (records_scan fields) db = record_scan_job platform fields db

  unfoldable pub run_calls : List (Call F Json) → Database F → Database F
  run_calls [] db = db
  run_calls (c ∷ calls) db = run_calls calls (committed db (call c db))

  -- A dataset after an upsert: all of it is new but the time that it was created at, and its last run
  -- when the call names none.
  abbrev pub described : ℕ → DatasetFields F → Option (DatasetRecord F) → DatasetRecord F
  described now fields none = record {
    dataset_id = fields.dataset_id;
    version = fields.version;
    task_type = fields.task_type;
    robot_type = fields.robot_type;
    pose_format = fields.pose_format;
    storage_uri = fields.storage_uri;
    local_path = fields.local_path;
    num_samples = fields.num_samples;
    duration_sec = fields.duration_sec;
    fps = fields.fps;
    created_at = platform.isoformat now;
    updated_at = platform.isoformat now;
    last_status = fields.last_status;
    last_run_id = fields.last_run_id;
  }
  described now fields (some old) = record old {
    task_type = fields.task_type;
    robot_type = fields.robot_type;
    pose_format = fields.pose_format;
    storage_uri = fields.storage_uri;
    local_path = fields.local_path;
    num_samples = fields.num_samples;
    duration_sec = fields.duration_sec;
    fps = fields.fps;
    updated_at = platform.isoformat now;
    last_status = or_old fields.last_status old.last_status;
    last_run_id = or_old fields.last_run_id old.last_run_id;
  }

  -- A dataset that is there, after a run of it.
  abbrev pub touched : ℕ → String → String → Option (DatasetRecord F) → Option (DatasetRecord F)
  touched now status run_id none = none
  touched now status run_id (some old) = some (record old {
    last_status = some status;
    last_run_id = some run_id;
    updated_at = platform.isoformat now;
  })

  abbrev pub bare_detail : RunRow F → RunDetailRecord F Json
  bare_detail row = record {
    run = run_record platform row;
    validator_results = [];
    gate_results = [];
    artifacts = [];
  }

  abbrev pub full_detail : QualityReport F Json → RunRow F → RunDetailRecord F Json
  full_detail report row = record {
    run = run_record platform row;
    validator_results =
        map (validator_result_record platform)
          (map (validator_row platform report.run_id) report.validators);
    gate_results = gate_result_record platform (gate_row platform report) ∷ [];
    artifacts = map artifact_record (iter_artifacts platform report);
  }

  abbrev pub with_last_run : ℕ → String × String → String → String → View F Json → View F Json
  with_last_run now key status run_id v = record v {
    dataset = update key (touched now status run_id (v.dataset key)) v.dataset;
  }

  abbrev pub act_creates : RunFields F Json → Option (RunRow F) → View F Json → View F Json
  act_creates fields none v = v
  act_creates fields (some row) v = with_run fields.run_id (bare_detail row) v

  abbrev pub act_records :
      ℕ → QualityReport F Json → RunFields F Json → Option (RunRow F) → View F Json → View F Json
  act_records now report fields none v = v
  act_records now report fields (some row) v =
      with_last_run now (fields.dataset_id, fields.dataset_version) fields.status fields.run_id
        (with_run fields.run_id (full_detail report row) v)

  abbrev pub act_scans : Option ScanJobRow → View F Json → View F Json
  act_scans none v = v
  act_scans (some row) v = record v {
    scan = update row.scan_id (some (scan_job_record platform row)) v.scan;
  }

  -- What a call changes for its clients.
  unfoldable pub act : Call F Json → View F Json → View F Json
  act (upserts now fields) v =
      let key : String × String = (fields.dataset_id, fields.version) in
      record v { dataset = update key (some (described now fields (v.dataset key))) v.dataset }
  act (updates_last_run now dataset_id version status run_id) v =
      with_last_run now (dataset_id, version) status run_id v
  act (creates_run fields) v = act_creates fields (run_row platform fields) v
  act (records_run now report version config_path output_dir) v =
      let fields = report_fields report version config_path output_dir in
      act_records now report fields (run_row platform fields) v
  act (records_scan fields) v = act_scans (scan_row platform fields) v

  unfoldable pub replay : List (Call F Json) → View F Json → View F Json
  replay [] v = v
  replay (c ∷ calls) v = replay calls (act c v)
