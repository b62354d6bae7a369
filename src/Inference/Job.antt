-- ===== src/Inference/Job.antt =====
-- `run_inference` of src/robot_dh/inference/runner.py. What it writes is the list of its effects, in
-- order. The registry, the builder of the input, the backend and the connection to the database are
-- arguments. Of a run whose backend raises, the events of its batches are left out.
pub mod Log
pub mod Accounts
use robot_data_harness.Common.{
  codes, ℕ, zero, suc, ◌+◌, String, Bool, true, false, Option, none, some, List, [], ◌∷◌, ◌++◌, map,
  select, length, Text, Dict, get, put, text_eq, if◌then◌else◌, ◌==◌, eqb, ltb, not, ◌>>=◌,
}
use robot_data_harness.AiTasks.{
  JobStatus, created, running, Rates, JobOutcome, evaluate_job_outcome,
}
use robot_data_harness.Inference.Schemas.{InferenceSample, InferencePrediction, ModelSpec}
use robot_data_harness.Inference.Failures.{FailedSampleRecord, failure_from}
use robot_data_harness.Inference.Records.{
  InferenceJob, InferenceOutputRecord, record_from_prediction, Report, Event, job_created,
  job_started, batch_finished, job_finished, job_failed, Effect, emit, write_job_pg,
  write_predictions, write_outputs_pg, write_failed_samples, write_failures_pg, write_report,
  write_manifest, record_dead_letter, InferenceRunResult, Ending, returned, not_registered,
  bad_input, backend_raised, InferenceOptions, InferenceWorld,
}
use robot_data_harness.Inference.Metrics.{InferenceMetrics, compute_metrics}
use robot_data_harness.Inference.Execute.{Backend, Executed, fails, execute, task_type_for_model}

-- zip(samples, predictions)
abbrev pub zip :
    List InferenceSample → List InferencePrediction → List (InferenceSample × InferencePrediction)
zip [] ps = []
zip (s ∷ ss) [] = []
zip (s ∷ ss) (p ∷ ps) = (s, p) ∷ zip ss ps

-- `a or b` on numbers and texts
abbrev pub number_or : ℕ → ℕ → ℕ
number_or zero b = b
number_or (suc a) b = suc a

abbrev pub text_or : Text → Text → Text
text_or [] b = b
text_or (c ∷ t) b = c ∷ t

abbrev pub count_of : Option ℕ → ℕ
count_of none = 0
count_of (some n) = n

-- error_summary[key] = error_summary.get(key, 0) + 1
pub summarize : List FailedSampleRecord → Dict Text ℕ → Dict Text ℕ
summarize [] summary = summary
summarize (fr ∷ frs) summary =
    let key = text_or fr.error_type (codes "UNKNOWN") in
    summarize frs (put key (count_of (get key summary) + 1) summary)

-- The first item with the largest count.
pub max_item : Text × ℕ → Dict Text ℕ → Text × ℕ
max_item best [] = best
max_item best (item ∷ items) =
    if ltb best.1 item.1 then max_item item items else max_item best items

pub top_error : Dict Text ℕ → Option Text
unfolding max_item
top_error [] = none
top_error (item ∷ items) = some (max_item item items).0

-- task_type or task_type_for_model(spec.model_type)
abbrev pub resolved_task : (lower : String → String) → Option String → ModelSpec → String
unfolding task_type_for_model
resolved_task lower none spec = task_type_for_model lower spec.model_type
resolved_task lower (some t) spec = if t == "" then task_type_for_model lower spec.model_type else t

abbrev pub when {ℓ} : {A : Type ℓ} → Bool → List A → List A
when c xs = if c then xs else []

module _ (rates : Rates) (options : InferenceOptions rates.Rate) (world : InferenceWorld) where
  open rates use {Rate}

  pub failed_records :
      InferenceJob → List (InferenceSample × InferencePrediction) → List FailedSampleRecord
  unfolding failure_from
  failed_records job [] = []
  failed_records job ((s, p) ∷ rest) =
      let others = failed_records job rest in
      if fails p
      then failure_from world.is_space world.is_alnum job.job_id job.model_id s p 1 ∷ others
      else others

  -- The end of the job, from the predictions to the result: aggregation, verdict, files, database.
  unfoldable pub finish :
      ModelSpec
      → InferenceJob
      → List InferenceSample
      → Executed
      → List (Effect Rate) × InferenceRunResult Rate
  unfolding record_from_prediction failed_records compute_metrics summarize evaluate_job_outcome
      top_error
  finish spec job samples executed =
      let pairs = zip samples executed.predictions in
      let output_records : List InferenceOutputRecord =
        map (λ sp. record_from_prediction job.job_id job.model_id sp.0 sp.1) pairs in
      let failures = failed_records job pairs in
      let metrics = compute_metrics rates executed.predictions in
      let error_summary = summarize failures [] in
      let outcome =
        evaluate_job_outcome rates metrics.total_samples metrics.failed_samples
          options.max_error_rate executed.fail_fast_triggered in
      let done : InferenceJob = record job {
        processed_samples = metrics.total_samples;
        failed_samples = metrics.failed_samples;
        status = outcome.status;
        error_message =
            if ltb 0 metrics.failed_samples
            then some (metrics.failed_samples, top_error error_summary)
            else job.error_message;
      } in
      let report : Report Rate = record {
        job_id = job.job_id;
        model_id = job.model_id;
        task_type = job.task_type;
        backend = spec.backend;
        metrics = metrics;
        status = done.status;
        error_summary = error_summary;
      } in
      (
        write_predictions output_records
              ∷ write_failed_samples failures
              ∷ write_report report
              ∷ write_manifest done
              ∷ []
            ++ when world.has_engine (
                write_outputs_pg output_records
                ∷ write_failures_pg failures
                ∷ write_job_pg done
                ∷ [])
            ++ (emit (
                  if eqb outcome.exit_code 0
                  then job_finished done.status
                  else job_failed done.status)
                ∷ [])
            ++ when (not (eqb outcome.exit_code 0))
                (record_dead_letter done.error_message error_summary ∷ []),
        record { job = done; report = report; exit_code = outcome.exit_code; warn = outcome.warn },
      )

  -- The job at its creation.
  unfoldable pub new_job : ModelSpec → InferenceJob
  unfolding task_type_for_model
  new_job spec = record {
    job_id = world.job_id;
    model_id = options.model_id;
    task_type = resolved_task world.lower options.task_type spec;
    status = created;
    batch_size = number_or (count_of options.batch_size) (number_or spec.max_batch_size 32);
    max_workers = options.max_workers;
    total_samples = 0;
    processed_samples = 0;
    failed_samples = 0;
    error_message = none;
  }

  -- `_execute` of the job: get_backend, then the batches.
  unfoldable pub execute_job : ModelSpec → InferenceJob → List InferenceSample → Option Executed
  unfolding execute
  execute_job spec job samples = do
    backend ← world.get_backend spec
    execute world.lower backend spec options.retry samples options.max_workers
        (number_or job.batch_size 32) options.fail_fast

  unfoldable pub run_inference : List (Effect Rate) × Ending Rate
  unfolding finish new_job execute_job
  run_inference = elim (world.find_model options.model_id) [
    | none ↦ ([], not_registered)
    | some spec ↦
        let job = new_job spec in
        let log : List (Effect Rate) =
          when world.has_engine (write_job_pg job ∷ []) ++ emit job_created ∷ [] in
        elim world.build_samples [
          | none ↦ (log, bad_input)
          | some samples ↦
              let started : InferenceJob = record job {
                total_samples = length samples;
                status = running;
              } in
              let log' : List (Effect Rate) =
                log
                ++ when world.has_engine (write_job_pg started ∷ [])
                ++ emit (job_started (length samples)) ∷ [] in
              elim (execute_job spec started samples) [
                | none ↦ (log', backend_raised)
                | some executed ↦
                    let (ending, result) = finish spec started samples executed in
                    (
                      log'
                          ++ map (λ i. emit (batch_finished i)) executed.batches_finished
                          ++ ending,
                      returned result,
                    )
              ]
        ]
  ]
