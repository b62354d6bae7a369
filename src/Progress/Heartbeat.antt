-- ===== src/Progress/Heartbeat.antt =====
-- progress/heartbeat.py: the reporter of a long task, which writes a beat to a local file, or to stderr
-- when that fails, and to the database. Times are in microseconds; whether a write works, and the clock,
-- are arguments of each call. Metrics is the type of the dictionaries that are only written.
pub mod Spacing
use robot_data_harness.Common.{
  ℕ, zero, suc, ◌+◌, Bool, true, false, not, ◌&&◌, Option, none, some, List, [], ◌∷◌, ◌++◌, ltb,
  String, append, if◌then◌else◌, ◌==◌,
}

pub record HeartbeatPayload (Metrics : Type 0) : Type 0 where
  pub task_id : String
  pub workflow_name : Option String
  pub step_name : Option String
  pub dataset_id : Option String
  pub version : Option String
  pub phase : Option String
  pub progress_current : Option ℕ
  pub progress_total : Option ℕ
  pub progress_unit : Option String
  pub message : Option String
  pub metrics : Metrics
  pub updated_at : String

-- The attributes that change or decide; `has_warehouse` says that a warehouse was given.
pub record HeartbeatReporter (Metrics : Type 0) : Type 0 where
  pub template : HeartbeatPayload Metrics
  pub interval_sec : ℕ
  pub last_emit : ℕ
  pub jsonl_write_errors : ℕ
  pub has_warehouse : Bool

-- The arguments of a beat.
pub record Beat (Metrics : Type 0) : Type 0 where
  pub progress_current : Option ℕ
  pub progress_total : Option ℕ
  pub message : Option String
  pub metrics : Option Metrics
  pub phase : Option String

-- What the world answers to a beat: the time in its payload, the time after its writes, and which
-- writes work.
pub record Answers : Type 0 where
  pub written_at : String
  pub ended_at : ℕ
  pub jsonl_works : Bool
  pub db_works : Bool

pub data Sent (Metrics : Type 0) : Type 0 where
  to_jsonl : HeartbeatPayload Metrics → Sent Metrics
  to_stderr : HeartbeatPayload Metrics → Sent Metrics
  to_db : HeartbeatPayload Metrics → Sent Metrics

-- `phase or self._template.phase`
abbrev pub or_phase : Option String → Option String → Option String
or_phase none phase = phase
or_phase (some name) phase = if name == "" then phase else some name

abbrev pub exit_message : Option String → String
exit_message none = "phase_finish"
exit_message (some exc_type) = append "phase_failed: " exc_type

module _ {Metrics : Type 0} where
  abbrev pub or_metrics : Metrics → Option Metrics → Metrics
  or_metrics empty none = empty
  or_metrics empty (some metrics) = metrics

  unfoldable pub payload_of :
      Metrics → HeartbeatPayload Metrics → Beat Metrics → String → HeartbeatPayload Metrics
  payload_of empty template beat written_at = record template {
    phase = or_phase beat.phase template.phase;
    progress_current = beat.progress_current;
    progress_total = beat.progress_total;
    message = beat.message;
    metrics = or_metrics empty beat.metrics;
    updated_at = written_at;
  }

  -- The errors are counted until a write works again.
  unfoldable pub write_jsonl :
      Bool
      → HeartbeatPayload Metrics
      → HeartbeatReporter Metrics
      → HeartbeatReporter Metrics × List (Sent Metrics)
  write_jsonl true payload reporter =
      (record reporter { jsonl_write_errors = 0 }, to_jsonl payload ∷ [])
  write_jsonl false payload reporter = (
    record reporter { jsonl_write_errors = suc reporter.jsonl_write_errors },
    to_stderr payload ∷ [],
  )

  unfoldable pub write_db :
      Bool → HeartbeatPayload Metrics → HeartbeatReporter Metrics → List (Sent Metrics)
  write_db works payload reporter =
      if reporter.has_warehouse && works then to_db payload ∷ [] else []

  -- The reporter after a beat, and what was sent.
  unfoldable pub emit :
      Metrics
      → Beat Metrics
      → Answers
      → HeartbeatReporter Metrics
      → HeartbeatReporter Metrics × List (Sent Metrics)
  emit empty beat world reporter =
      let payload = payload_of empty reporter.template beat world.written_at in
      let (written, sent) = write_jsonl world.jsonl_works payload reporter in
      (
        record written { last_emit = world.ended_at },
        sent ++ write_db world.db_works payload written,
      )

  -- The interval since the last beat is not over: now - last_emit < interval_sec.
  abbrev pub is_early : ℕ → HeartbeatReporter Metrics → Bool
  is_early now reporter =
      ltb 0 reporter.interval_sec && ltb now (reporter.last_emit + reporter.interval_sec)

  -- The result says whether a beat was sent.
  unfoldable pub maybe_emit :
      Metrics
      → Bool
      → ℕ
      → Beat Metrics
      → Answers
      → HeartbeatReporter Metrics
      → Bool × HeartbeatReporter Metrics × List (Sent Metrics)
  maybe_emit empty force now beat world reporter =
      let (reporter', sent) = emit empty beat world reporter in
      if not force && is_early now reporter then (false, reporter, []) else (true, reporter', sent)

  abbrev pub message_beat : String → Beat Metrics
  message_beat text = record {
    progress_current = none;
    progress_total = none;
    message = some text;
    metrics = none;
    phase = none;
  }

  -- `with` sends a beat at the start, and one at the end that names the type of the exception.
  unfoldable pub enter :
      Metrics
      → Answers
      → HeartbeatReporter Metrics
      → HeartbeatReporter Metrics × List (Sent Metrics)
  enter empty world reporter = emit empty (message_beat "phase_start") world reporter

  unfoldable pub exit :
      Metrics
      → Option String
      → Answers
      → HeartbeatReporter Metrics
      → HeartbeatReporter Metrics × List (Sent Metrics)
  exit empty exc_type world reporter =
      emit empty (message_beat (exit_message exc_type)) world reporter

  unfoldable pub update_phase : String → HeartbeatReporter Metrics → HeartbeatReporter Metrics
  update_phase phase reporter = record reporter {
    template = record reporter.template { phase = some phase };
  }
