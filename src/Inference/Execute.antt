-- ===== src/Inference/Execute.antt =====
-- `_predict_with_retry`, `_skipped_predictions` and `_execute` of src/robot_dh/inference/runner.py. The
-- backend is an argument; what it answers may depend on the batch and on the call.
pub mod Retry
pub mod Aligned
use robot_data_harness.Common.{
  codes, ℕ, zero, suc, ◌+◌, String, Bool, true, false, not, ◌||◌, Option, none, some, List, [], ◌∷◌,
  ◌++◌, ◌>>=◌, map, length, drop, any, select, Dict, get, put, string_eq, if◌then◌else◌, one_of,
  max,
}
use robot_data_harness.Inference.Schemas.{InferenceSample, InferencePrediction, ok, ModelSpec}
use robot_data_harness.Inference.Batch.{iter_batches, run_batches_concurrent}

-- predict_batch of the batch with this index, at its n-th call.
abbrev pub Backend : Type 0
Backend = (batch_index call : ℕ) → List InferenceSample → List InferencePrediction

abbrev pub ById : Type 0
ById = Dict String InferencePrediction

-- for p in preds: by_id[p.sample_id] = p
pub put_all : List InferencePrediction → ById → ById
put_all [] by_id = by_id
put_all (p ∷ ps) by_id = put_all ps (put p.sample_id p by_id)

pub needs_retry : ById → InferenceSample → Bool
unfolding ok
needs_retry by_id s = elim (get s.sample_id by_id) [ none ↦ false | some p ↦ not (ok p) ]

-- The list at the end; `none` is the KeyError of a sample without a prediction.
pub predictions_of : List InferenceSample → ById → Option (List InferencePrediction)
predictions_of [] by_id = some []
predictions_of (s ∷ samples) by_id = do
  p ← get s.sample_id by_id
  ps ← predictions_of samples by_id
  some (p ∷ ps)

module _ (backend : Backend) where
  -- The loop over the attempts left, with its `break`.
  pub retry_rounds : ℕ → (index call : ℕ) → List InferenceSample → ById → ById
  unfolding put_all needs_retry
  retry_rounds zero index call batch by_id = by_id
  retry_rounds (suc left) index call batch by_id = elim (select (needs_retry by_id) batch) [
    | [] ↦ by_id
    | s ∷ samples ↦
        retry_rounds left index (call + 1) batch (put_all (backend index call (s ∷ samples)) by_id)
  ]

  unfoldable pub predict_with_retry :
      (retry index : ℕ) → List InferenceSample → Option (List InferencePrediction)
  unfolding retry_rounds predictions_of put_all
  predict_with_retry retry index batch =
      predictions_of batch (retry_rounds retry index 1 batch (put_all (backend index 0 batch) []))

-- task_type_for_model and prediction_type_for_task; `lower` is str.lower.
unfoldable pub task_type_for_model : (lower : String → String) → String → String
task_type_for_model lower model_type =
    let mt = lower model_type in
    if one_of mt ("embedding" ∷ [])
    then "embedding"
    else if one_of mt ("anomaly_scorer" ∷ "anomaly" ∷ [])
    then "anomaly_score"
    else "caption"

pub prediction_type_for_task : (lower : String → String) → String → String
prediction_type_for_task lower task_type =
    let tt = lower task_type in
    if one_of tt ("embedding" ∷ [])
    then "embedding"
    else if one_of tt ("anomaly_score" ∷ "anomaly" ∷ [])
    then "anomaly_score"
    else "caption"

pub skipped_prediction : String → InferenceSample → InferencePrediction
skipped_prediction ptype s = record {
  sample_id = s.sample_id;
  prediction_type = ptype;
  status = "FAILED";
  error_message = some (codes "SKIPPED: fail-fast 提前终止");
}

unfoldable pub skipped_predictions :
    (lower : String → String) → ModelSpec → List InferenceSample → List InferencePrediction
unfolding skipped_prediction task_type_for_model prediction_type_for_task
skipped_predictions lower spec samples =
    map
      (skipped_prediction
        (prediction_type_for_task lower (task_type_for_model lower spec.model_type)))
      samples

pub record Executed : Type 0 where
  pub predictions : List InferencePrediction
  pub fail_fast_triggered : Bool
  -- `batch_index` of each event `inference_batch_finished`
  pub batches_finished : List ℕ

abbrev pub fails : InferencePrediction → Bool
fails p = not (ok p)

-- The results of all futures; the first that raised raises.
pub sequence : List (Option (List InferencePrediction)) → Option (List InferencePrediction)
sequence [] = some []
sequence (r ∷ rs) = do preds ← r; rest ← sequence rs; some (preds ++ rest)

pub indices {ℓ} : {A : Type ℓ} → ℕ → List A → List ℕ
indices i [] = []
indices i (x ∷ xs) = i ∷ indices (i + 1) xs

module _ (lower : String → String) (backend : Backend) (spec : ModelSpec) (retry : ℕ)
    (samples : List InferenceSample) where
  -- The sequential loop of `fail_fast`, with its `break`.
  pub fail_fast_loop :
      ℕ → List (List InferenceSample) → List InferencePrediction → List ℕ → Option Executed
  unfolding predict_with_retry skipped_predictions
  fail_fast_loop index [] predictions finished = some (record {
    predictions = predictions;
    fail_fast_triggered = false;
    batches_finished = finished;
  })
  fail_fast_loop index (batch ∷ batches) predictions finished = do
    preds ← predict_with_retry backend retry index batch
    let so_far = predictions ++ preds
    let done = finished ++ index ∷ []
    let rest = fail_fast_loop (index + 1) batches so_far done
    if any fails preds
        then some (record {
          predictions = so_far ++ skipped_predictions lower spec (drop (length so_far) samples);
          fail_fast_triggered = true;
          batches_finished = done;
        })
        else rest

  pub run_pool : ℕ → List (List InferenceSample) → Option Executed
  unfolding sequence indices run_batches_concurrent predict_with_retry
  run_pool max_workers batches = do
    predictions ←
        sequence
          (run_batches_concurrent batches (predict_with_retry backend retry) (some []) max_workers)
    some (record {
      predictions = predictions;
      fail_fast_triggered = false;
      batches_finished = indices 0 batches;
    })

  unfoldable pub execute : (max_workers batch_size : ℕ) → (fail_fast : Bool) → Option Executed
  unfolding fail_fast_loop run_pool iter_batches
  execute max_workers batch_size fail_fast =
      let batches = iter_batches samples batch_size in
      if fail_fast then fail_fast_loop 0 batches [] [] else run_pool max_workers batches
