-- ===== src/Inference/Samples.antt =====
-- Concrete runs of the inference job.
use robot_data_harness.Common.{
  concat, codes, ℕ, String, ◌≡◌, refl, ap, Bool, true, false, none, some, List, [], ◌∷◌, map, any,
  All, ltb, leb, eqb, if◌then◌else◌, ◌==◌, ◌&&◌, ◌*◌, ◌+◌, length, sum_of, max, string_eq,
}
use robot_data_harness.AiTasks.{Rates, created, running, succeeded, failed, can_transition}
use robot_data_harness.Inference.Schemas.{InferenceSample, InferencePrediction, ModelSpec}
use robot_data_harness.Inference.Records.{
  InferenceOptions, InferenceWorld, InferenceRunResult, returned, job_finished, job_failed,
}
use robot_data_harness.Inference.Execute.{Backend, Executed, execute, fails, predict_with_retry}
use robot_data_harness.Inference.Execute.Retry.{
  Answers, sample_ids, prediction_ids, predict_with_retry-ids,
}
use robot_data_harness.Inference.Execute.Aligned.{IsAligned, execute-IsAligned}
use robot_data_harness.Inference.Batch.{iter_batches, run_batches_concurrent, run_in_order}
use robot_data_harness.Inference.Batch.Slices.{
  IsBatch, iter_batches_slices, run_batches_concurrent-in_order,
}
use robot_data_harness.Inference.Job.{run_inference}
use robot_data_harness.Inference.Job.Log.{
  gather, status_written, final_event, dead_letter_written, prediction_rows, failure_rows,
}
use robot_data_harness.Inference.Job.Accounts.{
  run_inference-accounts, run_inference-verdict, run_inference-fail_fast,
}

-- The names of the models below are in lower case.
abbrev lower_case : String → String
lower_case name = name

abbrev sample : String → InferenceSample
sample k = record {
  sample_id = k;
  dataset_id = some "droid";
  version = none;
  episode_id = none;
  frame_id = none;
  input_uri = none;
  input_text = none;
}

abbrev three : List InferenceSample
three = sample "a" ∷ sample "b" ∷ sample "c" ∷ []

-- The sample "b" fails at its first call.
abbrev answer : ℕ → InferenceSample → InferencePrediction
answer call s = record {
  sample_id = s.sample_id;
  prediction_type = "caption";
  status = if eqb call 0 && s.sample_id == "b" then "FAILED" else "OK";
  error_message =
      if eqb call 0 && s.sample_id == "b" then some (codes "OPENAI_TIMEOUT: no answer") else none;
}

abbrev flaky : Backend
flaky index call batch = map (answer call) batch

flaky-Answers : Answers flaky
flaky-Answers index call [] = refl
flaky-Answers index call (s ∷ batch) = ap (◌∷◌ s.sample_id) (flaky-Answers index call batch)

abbrev captioner : ModelSpec
captioner = record {
  model_id = "m";
  model_type = "mock";
  backend = "mock";
  max_batch_size = 2;
  timeout_sec = 30;
}

-- A rate as the numerator and the denominator of a fraction.
abbrev fractions : Rates
fractions = record {
  Rate = ℕ × ℕ;
  zero_rate = (0, 1);
  one_rate = (1, 1);
  ratio = λ n d. (n, d);
  exceeds = λ r s. ltb (s.0 * r.1) (r.0 * s.1);
}

abbrev half_allowed : Bool → InferenceOptions (ℕ × ℕ)
half_allowed fail_fast = record {
  model_id = "m";
  task_type = none;
  batch_size = none;
  max_workers = 4;
  retry = 0;
  fail_fast = fail_fast;
  max_error_rate = (1, 2);
}

abbrev world : InferenceWorld
world = record {
  job_id = "infer-1";
  find_model = λ id. if id == "m" then some captioner else none;
  build_samples = some three;
  get_backend = λ spec. some flaky;
  has_engine = true;
  lower = lower_case;
  is_space = eqb 32;
  is_alnum = leb 48;
}

-- The job of three samples in two batches of which one sample fails for good.
run_inference-accounts_example :
    (r : InferenceRunResult (ℕ × ℕ)) × ((run_inference fractions (half_allowed false) world).1
      ≡ returned r)
    × (map
          (λ row. row.sample_id)
          (gather prediction_rows (run_inference fractions (half_allowed false) world).0)
        ≡ sample_ids three)
    × (r.job.total_samples ≡ 3)
    × (r.job.processed_samples ≡ 3)
    × (r.report.metrics.succeeded_samples + r.job.failed_samples ≡ 3)
    × (length (gather failure_rows (run_inference fractions (half_allowed false) world).0)
        ≡ r.job.failed_samples)
    × (sum_of (λ kv. kv.1) r.report.error_summary ≡ r.job.failed_samples)
run_inference-accounts_example =
    run_inference-accounts fractions (half_allowed false) world captioner three flaky refl refl refl
      flaky-Answers

run_inference-verdict_example :
    (r : InferenceRunResult (ℕ × ℕ)) × ((run_inference fractions (half_allowed false) world).1
      ≡ returned r)
    × (gather status_written (run_inference fractions (half_allowed false) world).0
        ≡ created ∷ running ∷ r.job.status ∷ [])
    × (can_transition created running ≡ true)
    × (can_transition running r.job.status ≡ true)
    × (r.job.status ≡ (if eqb r.exit_code 0 then succeeded else failed))
    × (gather final_event (run_inference fractions (half_allowed false) world).0
        ≡ (if eqb r.exit_code 0 then job_finished succeeded else job_failed failed) ∷ [])
    × (gather dead_letter_written (run_inference fractions (half_allowed false) world).0
        ≡ (if eqb r.exit_code 0 then [] else r.job.error_message ∷ []))
run_inference-verdict_example =
    run_inference-verdict fractions (half_allowed false) world captioner three flaky refl refl refl
      flaky-Answers

run_inference-fail_fast_example :
    (r : InferenceRunResult (ℕ × ℕ)) × ((run_inference fractions (half_allowed true) world).1
      ≡ returned r)
    × ((ltb 0 r.job.failed_samples && eqb r.exit_code 0) ≡ false)
run_inference-fail_fast_example =
    run_inference-fail_fast fractions (half_allowed true) world captioner three flaky refl refl refl
      flaky-Answers refl

execute-IsAligned_example :
    (e : Executed) × (execute lower_case flaky captioner 1 three 4 2 true ≡ some e)
    × IsAligned three e
    × (e.fail_fast_triggered ≡ (true && any fails e.predictions))
execute-IsAligned_example =
    execute-IsAligned lower_case flaky flaky-Answers captioner 1 three 4 2 true

predict_with_retry-ids_example :
    (ps : List InferencePrediction) × (predict_with_retry flaky 1 0 three ≡ some ps)
    × (prediction_ids ps ≡ "a" ∷ "b" ∷ "c" ∷ [])
predict_with_retry-ids_example = predict_with_retry-ids flaky flaky-Answers 1 0 three

iter_batches_slices_example :
    (concat (iter_batches three 2) ≡ three) × All (IsBatch (max 1 2)) (iter_batches three 2)
iter_batches_slices_example = iter_batches_slices three 2

run_batches_concurrent-in_order_example :
    run_batches_concurrent (1 ∷ 2 ∷ 3 ∷ []) (λ i n. i * 10 + n) 0 4 ≡ 1 ∷ 12 ∷ 23 ∷ []
unfolding run_in_order
run_batches_concurrent-in_order_example =
    run_batches_concurrent-in_order (1 ∷ 2 ∷ 3 ∷ []) (λ i n. i * 10 + n) 0 4
