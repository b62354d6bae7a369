-- ===== src/Progress/Samples.antt =====
-- Heartbeats of two steps, and a checkpoint in a store that holds one payload.
use robot_data_harness.Common.{
  ℕ, ◌≡◌, refl, true, false, ◌||◌, Bool, ◌+◌, arith, Option, none, some, List, [], ◌∷◌, String,
  Text, codes,
}
use robot_data_harness.Progress.Stale.{Heartbeat, Moment, Key, key_eq}
use robot_data_harness.Progress.Heartbeat.{HeartbeatReporter}
use robot_data_harness.Progress.Heartbeat.Spacing.{
  Attempt, IsSpaced, beat_times, beat_times-IsSpaced,
}
use robot_data_harness.Progress.Checkpoint.{
  CheckpointFile, Checkpoint, Payload, LakeStore, has_step, file_status, load, save,
}
use robot_data_harness.Progress.Checkpoint.Resume.{
  Edit, marks, upserts, edited, marked, reported, load-save,
}

-- The first character stands for the time.
abbrev clock : Text → Option Moment
clock [] = none
clock (c ∷ text) = some (record { aware = true; instant = c })

abbrev beat : String → String → Heartbeat
beat step time = record {
  workflow_name = some (codes "etl");
  phase = none;
  step_name = some (codes step);
  updated_at = some (codes time);
}

abbrev beats : List Heartbeat
beats = beat "load" "3" ∷ beat "save" "9" ∷ beat "load" "7" ∷ beat "load" "5" ∷ []

abbrev load_key : Key
load_key = (codes "etl", (codes "-", codes "load"))

abbrev store : LakeStore ℕ (Option (Payload ℕ))
store = record {
  exists = λ w. elim w [ none ↦ false | some p ↦ true ];
  read_json = λ w. w;
  write_json = λ p w. some p;
}

abbrev started : Checkpoint ℕ
started = record {
  dataset_id = "aloha";
  version = "v1";
  phase = "normalize";
  source_uri = "s3://raw/aloha";
  output_uri = "s3://lake/aloha";
  status = "RUNNING";
  completed_steps = [];
  files = [];
  metrics = 0;
  schema_version = "1.6";
  updated_at = "t0";
}

abbrev video : CheckpointFile
video = record {
  name = "video";
  status = "DONE";
  uri = none;
  row_count = some 4;
  size_bytes = none;
  checksum_sha256 = none;
}

abbrev edits : List Edit
edits = marks "scan" ∷ upserts video ∷ marks "scan" ∷ []

load-save_example :
    (loaded : Checkpoint ℕ) × (load store 0 "t2"
        (save store "t1" (edited "t1" edits started) none).1
      ≡ some loaded)
    × (has_step "scan" loaded ≡ (has_step "scan" started || marked "scan" edits))
    × (file_status "video" loaded ≡ reported "video" edits (file_status "video" started))
load-save_example =
    load-save store 0 "t1" "t2" edits started none "scan" "video" (λ payload w. (refl, refl))

abbrev reporter : HeartbeatReporter ℕ
reporter = record {
  template = record {
    task_id = "t1";
    workflow_name = some "etl";
    step_name = some "load";
    dataset_id = none;
    version = none;
    phase = some "normalize";
    progress_current = none;
    progress_total = none;
    progress_unit = some "rows";
    message = none;
    metrics = 0;
    updated_at = "t0";
  };
  interval_sec = 30;
  last_emit = 100;
  jsonl_write_errors = 0;
  has_warehouse = true;
}

abbrev attempt : ℕ → Bool → Attempt ℕ
attempt now works = record {
  now = now;
  beat = record {
    progress_current = some now;
    progress_total = none;
    message = none;
    metrics = none;
    phase = none;
  };
  world = record { written_at = "t"; ended_at = now + 1; jsonl_works = works; db_works = false };
}

abbrev attempts : List (Attempt ℕ)
attempts = attempt 110 true ∷ attempt 130 false ∷ attempt 160 true ∷ attempt 162 true ∷ []

beat_times-IsSpaced_example : IsSpaced 30 100 (beat_times 0 attempts reporter)
beat_times-IsSpaced_example =
    beat_times-IsSpaced 0 attempts reporter
      (omega arith, (omega arith, (omega arith, (omega arith, tt)))) (omega arith)
