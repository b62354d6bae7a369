-- ===== src/Registry/Datasets.antt =====
-- registry/service.py: the operations on the datasets. A database keeps one order of its texts, `text_lt`
-- of the queries below, and gives rows that a query does not order in the order of their ids.
use robot_data_harness.Common.{
  ℕ, Bool, Option, none, some, List, [], ◌∷◌, ◌++◌, map, eqb, ltb, if◌then◌else◌, String, ◌==◌,
  text_eq, text_lt, sorted_by, sorted_desc, string_eq, pair_eq,
}
use mathlib.Core.Option
use robot_data_harness.Registry.Tables.{find, modify, select_where}
use robot_data_harness.Registry.Schema.{DatasetRow, Database}
use robot_data_harness.Registry.Records.{Platform, DatasetRecord, dataset_record}

abbrev pub dataset_key : {F : Type 0} → DatasetRow F → String × String
dataset_key row = (row.dataset_id, row.version)

-- The arguments of upsert_dataset.
pub record DatasetFields (F : Type 0) : Type 0 where
  pub dataset_id : String
  pub version : String
  pub task_type : Option String
  pub robot_type : Option String
  pub pose_format : Option String
  pub storage_uri : Option String
  pub local_path : Option String
  pub num_samples : Option ℕ
  pub duration_sec : Option F
  pub fps : Option F
  pub last_status : Option String
  pub last_run_id : Option String

-- `if value is not None: row.attribute = value`
abbrev pub or_old : Option String → Option String → Option String
or_old none old = old
or_old (some value) old = some value

module _ {F : Type 0} where
  abbrev pub new_dataset_row : ℕ → DatasetFields F → DatasetRow F
  new_dataset_row now fields = record {
    dataset_id = fields.dataset_id;
    version = fields.version;
    task_type = none;
    robot_type = none;
    pose_format = none;
    storage_uri = none;
    local_path = none;
    num_samples = none;
    duration_sec = none;
    fps = none;
    created_at = now;
    updated_at = now;
    last_status = none;
    last_run_id = none;
  }

  unfoldable pub set_dataset_row : ℕ → DatasetFields F → DatasetRow F → DatasetRow F
  set_dataset_row now fields row = record row {
    task_type = fields.task_type;
    robot_type = fields.robot_type;
    pose_format = fields.pose_format;
    storage_uri = fields.storage_uri;
    local_path = fields.local_path;
    num_samples = fields.num_samples;
    duration_sec = fields.duration_sec;
    fps = fields.fps;
    updated_at = now;
    last_status = or_old fields.last_status row.last_status;
    last_run_id = or_old fields.last_run_id row.last_run_id;
  }

  abbrev pub set_or_add :
      ℕ → DatasetFields F → List (DatasetRow F) → Option (DatasetRow F) → List (DatasetRow F)
  set_or_add now fields rows none =
      rows ++ set_dataset_row now fields (new_dataset_row now fields) ∷ []
  set_or_add now fields rows (some row) =
      modify dataset_key (fields.dataset_id, fields.version) (set_dataset_row now fields) rows

  unfoldable pub upsert_dataset : ℕ → DatasetFields F → Database F → Database F
  upsert_dataset now fields db = record db {
    datasets =
        set_or_add now fields db.datasets
          (find dataset_key (fields.dataset_id, fields.version) db.datasets);
  }

  unfoldable pub set_last_run : ℕ → String → String → DatasetRow F → DatasetRow F
  set_last_run now status run_id row = record row {
    last_status = some status;
    last_run_id = some run_id;
    updated_at = now;
  }

  -- A dataset that is not there stays away.
  unfoldable pub update_dataset_last_run :
      ℕ → String → String → String → String → Database F → Database F
  update_dataset_last_run now dataset_id version status run_id db = record db {
    datasets =
        modify dataset_key (dataset_id, version) (set_last_run now status run_id) db.datasets;
  }

  -- `<` of order_by(updated_at.desc(), dataset_id.asc(), version.asc())
  abbrev pub listed_before : (String → String → Bool) → DatasetRow F → DatasetRow F → Bool
  listed_before text_lt r q =
      if eqb r.updated_at q.updated_at
      then if r.dataset_id == q.dataset_id
        then text_lt r.version q.version
        else text_lt r.dataset_id q.dataset_id
      else ltb q.updated_at r.updated_at

  module _ {Json : Type 0} (platform : Platform Json) where
    pub list_datasets : (String → String → Bool) → Database F → List (DatasetRecord F)
    list_datasets text_lt db =
        map (dataset_record platform) (sorted_by (listed_before text_lt) db.datasets)

    -- session.scalar: the first row, or None
    abbrev pub first_record : List (DatasetRow F) → Option (DatasetRecord F)
    first_record [] = none
    first_record (row ∷ rows) = some (dataset_record platform row)

    -- Without a version, the one that was updated last.
    unfoldable pub get_dataset : String → Option String → Database F → Option (DatasetRecord F)
    get_dataset dataset_id none db = first_record (
        sorted_desc (λ row. row.updated_at)
          (select_where (λ row. row.dataset_id) dataset_id db.datasets))
    get_dataset dataset_id (some version) db =
        Option.map (dataset_record platform) (find dataset_key (dataset_id, version) db.datasets)
