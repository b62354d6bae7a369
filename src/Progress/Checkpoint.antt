-- ===== src/Progress/Checkpoint.antt =====
-- progress/checkpoint.py: the steps and files of a long task that are done, kept so that a run that was
-- cut off goes on where it stopped. The metrics and the JSON texts of the lake's store are arguments; an
-- entry of a payload that is missing is none, and `now` is the time of the call.
pub mod Resume
use robot_data_harness.Common.{
  ℕ, Bool, true, false, Option, none, some, List, [], ◌∷◌, ◌++◌, map, any, if◌then◌else◌, ◌>>=◌,
  String, ◌==◌, one_of, Dict, get, put, string_eq,
}

pub record CheckpointFile : Type 0 where
  pub name : String
  pub status : String
  pub uri : Option String
  pub row_count : Option ℕ
  pub size_bytes : Option ℕ
  pub checksum_sha256 : Option String

pub record Checkpoint (Metrics : Type 0) : Type 0 where
  pub dataset_id : String
  pub version : String
  pub phase : String
  pub source_uri : String
  pub output_uri : String
  pub status : String
  pub completed_steps : List String
  pub files : Dict String CheckpointFile
  pub metrics : Metrics
  pub schema_version : String
  pub updated_at : String

-- The dictionaries that are written as JSON.
pub record FilePayload : Type 0 where
  pub name : Option String
  pub status : Option String
  pub uri : Option String
  pub row_count : Option ℕ
  pub size_bytes : Option ℕ
  pub checksum_sha256 : Option String

pub record Payload (Metrics : Type 0) : Type 0 where
  pub dataset_id : Option String
  pub version : Option String
  pub phase : Option String
  pub source_uri : Option String
  pub output_uri : Option String
  pub status : Option String
  pub completed_steps : Option (List String)
  pub files : Option (Dict String FilePayload)
  pub metrics : Option Metrics
  pub schema_version : Option String
  pub updated_at : Option String

-- payload.get(key, default)
abbrev pub or_default {ℓ} : {A : Type ℓ} → A → Option A → A
or_default default none = default
or_default default (some value) = value

unfoldable pub file_to_dict : CheckpointFile → FilePayload
file_to_dict file = record {
  name = some file.name;
  status = some file.status;
  uri = file.uri;
  row_count = file.row_count;
  size_bytes = file.size_bytes;
  checksum_sha256 = file.checksum_sha256;
}

abbrev pub entry_to_dict : String × CheckpointFile → String × FilePayload
entry_to_dict (k, file) = (k, file_to_dict file)

abbrev pub entry_from_dict : String × FilePayload → String × CheckpointFile
entry_from_dict (k, v) = (
  k,
  record {
    name = or_default k v.name;
    status = or_default "PENDING" v.status;
    uri = v.uri;
    row_count = v.row_count;
    size_bytes = v.size_bytes;
    checksum_sha256 = v.checksum_sha256;
  },
)

abbrev pub status_or_pending : Option CheckpointFile → String
status_or_pending none = "PENDING"
status_or_pending (some f) = f.status

module _ {Metrics : Type 0} where
  unfoldable pub to_dict : Checkpoint Metrics → Payload Metrics
  to_dict c = record {
    dataset_id = some c.dataset_id;
    version = some c.version;
    phase = some c.phase;
    source_uri = some c.source_uri;
    output_uri = some c.output_uri;
    status = some c.status;
    completed_steps = some c.completed_steps;
    files = some (map entry_to_dict c.files);
    metrics = some c.metrics;
    schema_version = some c.schema_version;
    updated_at = some c.updated_at;
  }

  -- `empty` is the dictionary of no metrics.
  unfoldable pub from_dict : Metrics → String → Payload Metrics → Checkpoint Metrics
  from_dict empty now payload = record {
    dataset_id = or_default "" payload.dataset_id;
    version = or_default "" payload.version;
    phase = or_default "" payload.phase;
    source_uri = or_default "" payload.source_uri;
    output_uri = or_default "" payload.output_uri;
    status = or_default "RUNNING" payload.status;
    completed_steps = or_default [] payload.completed_steps;
    files = map entry_from_dict (or_default [] payload.files);
    metrics = or_default empty payload.metrics;
    schema_version = or_default "1.6" payload.schema_version;
    updated_at = or_default now payload.updated_at;
  }

  unfoldable pub mark_step : String → String → Checkpoint Metrics → Checkpoint Metrics
  mark_step now step c = record c {
    completed_steps =
        if one_of step c.completed_steps then c.completed_steps else c.completed_steps ++ step ∷ [];
    updated_at = now;
  }

  unfoldable pub upsert_file : String → CheckpointFile → Checkpoint Metrics → Checkpoint Metrics
  upsert_file now file c = record c { files = put file.name file c.files; updated_at = now }

  unfoldable pub has_step : String → Checkpoint Metrics → Bool
  has_step step c = one_of step c.completed_steps

  unfoldable pub file_status : String → Checkpoint Metrics → String
  file_status name c = status_or_pending (get name c.files)

-- The store of the lake at the address of one checkpoint: a read that raises, or that gives another kind
-- of payload, has no result.
pub record LakeStore (Metrics World : Type 0) : Type 0 where
  pub exists : World → Bool
  pub read_json : World → Option (Payload Metrics)
  pub write_json : Payload Metrics → World → World

module _ {Metrics World : Type 0} (store : LakeStore Metrics World) where
  -- A checkpoint that is missing or is not read is none.
  unfoldable pub load : Metrics → String → World → Option (Checkpoint Metrics)
  load empty now world =
      if store.exists world
      then (do payload ← store.read_json world; some (from_dict empty now payload))
      else none

  -- The checkpoint is stamped, also the caller's.
  unfoldable pub save : String → Checkpoint Metrics → World → Checkpoint Metrics × World
  save now c world =
      let stamped : Checkpoint Metrics = record c { updated_at = now } in
      (stamped, store.write_json (to_dict stamped) world)
