-- ===== src/Inference/Failures.antt =====
-- src/robot_dh/inference/failures.py: the classes of errors and the record of a failed sample. Which
-- characters are white space or alphanumeric is Unicode's, so both tests are arguments.
pub mod Classes
use robot_data_harness.Common.{
  ℕ, String, Bool, true, false, not, ◌&&◌, ◌||◌, Option, none, some, List, [], ◌∷◌, select, eqb,
  Text, codes, text_beq, if◌then◌else◌,
}
use robot_data_harness.Inference.Schemas.{InferenceSample, InferencePrediction}

abbrev pub known_error_prefixes : List Text
known_error_prefixes =
    codes "OPENAI_ENDPOINT_UNAVAILABLE" ∷ codes "OPENAI_TIMEOUT" ∷ codes "OPENAI_BAD_RESPONSE" ∷ []

abbrev pub text_in : Text → List Text → Bool
text_in t [] = false
text_in t (u ∷ us) = text_beq t u || text_in t us

-- error_message.split(":", 1)[0]
pub before_colon : Text → Text
before_colon [] = []
before_colon (c ∷ t) = if eqb c b':' then [] else c ∷ before_colon t

module _ (is_space is_alnum : ℕ → Bool) where
  pub lstrip : Text → Text
  lstrip [] = []
  lstrip (c ∷ t) = if is_space c then lstrip t else c ∷ t

  abbrev pub keep_last : ℕ → Text → Text
  keep_last c [] = if is_space c then [] else c ∷ []
  keep_last c (d ∷ t) = c ∷ d ∷ t

  pub rstrip : Text → Text
  rstrip [] = []
  rstrip (c ∷ t) = keep_last c (rstrip t)

  abbrev pub all_alnum : Text → Bool
  all_alnum [] = true
  all_alnum (c ∷ t) = is_alnum c && all_alnum t

  -- str.isalnum: false of the empty text
  pub isalnum : Text → Bool
  isalnum [] = false
  isalnum (c ∷ t) = all_alnum (c ∷ t)

  -- head.replace("_", "")
  pub without_underscores : Text → Text
  without_underscores = select (λ c. not (eqb c b'_'))

  pub classify_head : Text → Text
  unfolding isalnum without_underscores
  classify_head [] = codes "PREDICTION_ERROR"
  classify_head (c ∷ head) =
      if text_in (c ∷ head) known_error_prefixes
      then c ∷ head
      else if isalnum (without_underscores (c ∷ head))
      then c ∷ head
      else codes "PREDICTION_ERROR"

  unfoldable pub classify_error : Option Text → Text
  unfolding classify_head before_colon lstrip rstrip
  classify_error none = codes "UNKNOWN"
  classify_error (some []) = codes "UNKNOWN"
  classify_error (some (c ∷ message)) = classify_head (rstrip (lstrip (before_colon (c ∷ message))))

unfoldable pub is_retryable : Text → Bool
is_retryable t =
    text_in t (codes "OPENAI_TIMEOUT" ∷ codes "OPENAI_ENDPOINT_UNAVAILABLE" ∷ codes "UNKNOWN" ∷ [])

pub record FailedSampleRecord : Type 0 where
  pub job_id : String
  pub sample_id : String
  pub model_id : Option String
  pub dataset_id : Option String
  pub version : Option String
  pub episode_id : Option String
  pub frame_id : Option String
  pub input_uri : Option String
  pub error_type : Text
  pub error_message : Option Text
  pub attempt : ℕ
  pub retryable : Bool

unfoldable pub failure_from :
    (is_space is_alnum : ℕ → Bool)
    → String
    → String
    → InferenceSample
    → InferencePrediction
    → (attempt : ℕ) → FailedSampleRecord
unfolding classify_error is_retryable
failure_from is_space is_alnum job_id model_id sample prediction attempt =
    let error_type = classify_error is_space is_alnum prediction.error_message in
    record {
      job_id = job_id;
      sample_id = sample.sample_id;
      model_id = some model_id;
      dataset_id = sample.dataset_id;
      version = sample.version;
      episode_id = sample.episode_id;
      frame_id = sample.frame_id;
      input_uri = sample.input_uri;
      error_type = error_type;
      error_message = prediction.error_message;
      attempt = attempt;
      retryable = is_retryable error_type;
    }
