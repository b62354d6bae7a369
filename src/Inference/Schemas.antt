-- ===== src/Inference/Schemas.antt =====
-- src/robot_dh/models/schemas.py: samples, predictions and the model's description.
use robot_data_harness.Common.{ℕ, String, Bool, Option, Text, ◌==◌}

pub record InferenceSample : Type 0 where
  pub sample_id : String
  pub dataset_id : Option String
  pub version : Option String
  pub episode_id : Option String
  pub frame_id : Option String
  pub input_uri : Option String
  pub input_text : Option String

-- The outputs, scores and times of a prediction are not read by the code modelled here.
pub record InferencePrediction : Type 0 where
  pub sample_id : String
  pub prediction_type : String
  pub status : String
  pub error_message : Option Text

-- InferencePrediction.ok
unfoldable pub ok : InferencePrediction → Bool
ok p = p.status == "OK"

pub record ModelSpec : Type 0 where
  pub model_id : String
  pub model_type : String
  pub backend : String
  pub max_batch_size : ℕ
  pub timeout_sec : ℕ
