-- ===== src/Inference/Records.antt =====
-- The job, its output records, report and events, the effects of a run and how it ends: the classes of
-- src/robot_dh/inference/job.py, outputs.py and report.py. URIs, clocks, latencies and free-form
-- payloads are left out.
use robot_data_harness.Common.{ℕ, String, Bool, Option, List, Text, Dict}
use robot_data_harness.AiTasks.{JobStatus}
use robot_data_harness.Inference.Schemas.{InferenceSample, InferencePrediction, ModelSpec}
use robot_data_harness.Inference.Failures.{FailedSampleRecord}
use robot_data_harness.Inference.Metrics.{InferenceMetrics}
use robot_data_harness.Inference.Execute.{Backend}

pub record InferenceJob : Type 0 where
  pub job_id : String
  pub model_id : String
  pub task_type : String
  pub status : JobStatus
  pub batch_size : ℕ
  pub max_workers : ℕ
  pub total_samples : ℕ
  pub processed_samples : ℕ
  pub failed_samples : ℕ
  -- "{failed} samples failed; top={top error}", as its two parts
  pub error_message : Option (ℕ × Option Text)

pub record InferenceOutputRecord : Type 0 where
  pub job_id : String
  pub model_id : String
  pub sample_id : String
  pub prediction_type : String
  pub dataset_id : Option String
  pub version : Option String
  pub episode_id : Option String
  pub frame_id : Option String
  pub input_uri : Option String
  pub status : String
  pub error_message : Option Text

unfoldable pub record_from_prediction :
    String → String → InferenceSample → InferencePrediction → InferenceOutputRecord
record_from_prediction job_id model_id sample prediction = record {
  job_id = job_id;
  model_id = model_id;
  sample_id = sample.sample_id;
  prediction_type = prediction.prediction_type;
  dataset_id = sample.dataset_id;
  version = sample.version;
  episode_id = sample.episode_id;
  frame_id = sample.frame_id;
  input_uri = sample.input_uri;
  status = prediction.status;
  error_message = prediction.error_message;
}

pub record Report (Rate : Type 0) : Type 0 where
  pub job_id : String
  pub model_id : String
  pub task_type : String
  pub backend : String
  pub metrics : InferenceMetrics Rate
  pub status : JobStatus
  pub error_summary : Dict Text ℕ

pub data Event : Type 0 where
  job_created : Event
  job_started : (total_samples : ℕ) → Event
  batch_finished : (batch_index : ℕ) → Event
  job_finished job_failed : JobStatus → Event

pub data Effect (Rate : Type 0) : Type 0 where
  emit : Event → Effect Rate
  write_job_pg : InferenceJob → Effect Rate
  write_predictions write_outputs_pg : List InferenceOutputRecord → Effect Rate
  write_failed_samples write_failures_pg : List FailedSampleRecord → Effect Rate
  write_report : Report Rate → Effect Rate
  write_manifest : InferenceJob → Effect Rate
  -- the reason is the error message of the job; `none` stands for "error_rate exceeded"
  record_dead_letter : Option (ℕ × Option Text) → (error_summary : Dict Text ℕ) → Effect Rate

pub record InferenceRunResult (Rate : Type 0) : Type 0 where
  pub job : InferenceJob
  pub report : Report Rate
  pub exit_code : ℕ
  pub warn : Bool

-- `not_registered` is InferenceJobError; the other two are exceptions of the builder and the backend.
pub data Ending (Rate : Type 0) : Type 0 where
  returned : InferenceRunResult Rate → Ending Rate
  not_registered bad_input backend_raised : Ending Rate

pub record InferenceOptions (Rate : Type 0) : Type 0 where
  pub model_id : String
  pub task_type : Option String
  pub batch_size : Option ℕ
  pub max_workers : ℕ
  pub retry : ℕ
  pub fail_fast : Bool
  pub max_error_rate : Rate

pub record InferenceWorld : Type 0 where
  pub job_id : String
  pub find_model : String → Option ModelSpec
  pub build_samples : Option (List InferenceSample)
  pub get_backend : ModelSpec → Option Backend
  pub has_engine : Bool
  -- str.lower
  pub lower : String → String
  pub is_space : ℕ → Bool
  pub is_alnum : ℕ → Bool
