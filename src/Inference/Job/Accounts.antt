-- ===== src/Inference/Job/Accounts.antt =====
-- What a job that ran has written and what it reports.
use robot_data_harness.Common.{
  ℕ, ◌+◌, ◌-◌, ◌≡◌, refl, ap, ◌∙◌, ◌⊎◌, inl, inr, true, false, ◌&&◌, some, List, [], ◌∷◌, ◌++◌, map,
  any, length, sum_of, count_if, Bool-cases, text_eq, if◌then◌else◌, eqb, ltb, arith,
}
use mathlib.Core.List.{append-nil}
use robot_data_harness.AiTasks.{
  created, running, succeeded, failed, can_transition, Rates, evaluate_job_outcome, JobOutcome,
  error_rate_of,
}
use robot_data_harness.Inference.Schemas.{InferenceSample, ModelSpec, ok}
use robot_data_harness.Inference.Metrics.{compute_metrics}
use robot_data_harness.Inference.Execute.{Backend, Executed, fails}
use robot_data_harness.Inference.Execute.Retry.{Answers, sample_ids}
use robot_data_harness.Inference.Execute.Aligned.{IsAligned, ids_length, execute-IsAligned}
use robot_data_harness.Inference.Records.{
  InferenceJob, record_from_prediction, job_created, job_started, batch_finished, job_finished,
  job_failed, Effect, emit, write_job_pg, InferenceRunResult, returned, InferenceOptions,
  InferenceWorld,
}
use robot_data_harness.Inference.Job.{
  run_inference, finish, new_job, execute_job, failed_records, zip, number_or, when,
}
use robot_data_harness.Inference.Job.Log.{
  gather, gather-log, status_written, final_event, dead_letter_written, prediction_rows,
  failure_rows, sum_of-summarize, count_if-fails, any-count_if, output_ids, length-failed_records,
}

module _ (rates : Rates) (options : InferenceOptions rates.Rate) (world : InferenceWorld)
    (spec : ModelSpec) (samples : List InferenceSample) (backend : Backend)
    (found : world.find_model options.model_id ≡ some spec)
    (built : world.build_samples ≡ some samples) (loaded : world.get_backend spec ≡ some backend)
    (answers : Answers backend) where
  abbrev started : InferenceJob
  started = record (new_job rates options world spec) {
    total_samples = length samples;
    status = running;
  }

  abbrev opening : List (Effect rates.Rate)
  opening =
      when world.has_engine (write_job_pg (new_job rates options world spec) ∷ [])
      ++ emit job_created ∷ []
      ++ when world.has_engine (write_job_pg started ∷ [])
      ++ emit (job_started (length samples)) ∷ []

  -- The run from the inside: its opening, the events of the batches, and its end.
  run_inference_lem :
      (e : Executed) × (run_inference rates options world ≡ (
        opening
            ++ map (λ i. emit (batch_finished i)) e.batches_finished
            ++ (finish rates options world spec started samples e).0,
        returned (finish rates options world spec started samples e).1,
      ))
      × IsAligned samples e
      × (e.fail_fast_triggered ≡ (options.fail_fast && any fails e.predictions))
  unfolding run_inference execute_job
  run_inference_lem =
      let (e, returns, aligned, triggered) =
        execute-IsAligned world.lower backend answers spec options.retry samples options.max_workers
          (number_or started.batch_size 32) options.fail_fast in
      (e, rw (found, built, loaded, returns, run_inference, execute_job) refl, aligned, triggered)

  run-gather {ℓ} :
      {B : Type ℓ} (f : Effect rates.Rate → List B)
      → ((i : ℕ) → f (emit (batch_finished i)) ≡ [])
      → (e : Executed)
      → run_inference rates options world ≡ (
        opening
            ++ map (λ i. emit (batch_finished i)) e.batches_finished
            ++ (finish rates options world spec started samples e).0,
        returned (finish rates options world spec started samples e).1,
      )
      → gather f (run_inference rates options world).0
        ≡ gather f opening ++ gather f (finish rates options world spec started samples e).0
  run-gather f h e run =
      ap (λ l. gather f l.0) run
      ∙ gather-log f h opening (finish rates options world spec started samples e).0
          e.batches_finished

  abbrev verdict : Executed → JobOutcome rates.Rate
  verdict e =
      let total = length e.predictions in
      evaluate_job_outcome rates total (total - count_if ok e.predictions) options.max_error_rate
        e.fail_fast_triggered

  verdict-cases :
      (e : Executed)
      → (((verdict e).exit_code ≡ 0)
          × ((verdict e).status ≡ succeeded)
          × (e.fail_fast_triggered ≡ false))
        ⊎ (((verdict e).exit_code ≡ 1) × ((verdict e).status ≡ failed))
  unfolding evaluate_job_outcome
  verdict-cases e = elim (Bool-cases e.fail_fast_triggered) [
    | inl h ↦ inr (rw h (refl, refl))
    | inr h ↦
        let total = length e.predictions in
        elim (Bool-cases (
          rates.exceeds (error_rate_of rates total (total - count_if ok e.predictions))
            options.max_error_rate)) [
              | inl over ↦ inr (rw (h, over) (refl, refl))
              | inr under ↦ inl (rw (h, under) (refl, refl, refl))
            ]
  ]

  verdict_lem :
      (e : Executed)
      → (can_transition running (verdict e).status ≡ true)
        × ((verdict e).status ≡ (if eqb (verdict e).exit_code 0 then succeeded else failed))
        × ((if eqb (verdict e).exit_code 0
                then job_finished (verdict e).status
                else job_failed (verdict e).status)
              ∷ []
            ≡ (if eqb (verdict e).exit_code 0 then job_finished succeeded else job_failed failed)
              ∷ [])
  unfolding can_transition
  verdict_lem e = elim (verdict-cases e) [
    | inl (code, status, _) ↦ rw (code, status) (refl, refl, refl)
    | inr (code, status) ↦ rw (code, status) (refl, refl, refl)
  ]

  abbrev written {ℓ} : {B : Type ℓ} → (Effect rates.Rate → List B) → Executed → List B
  written f e = gather f opening ++ gather f (finish rates options world spec started samples e).0

  -- What the opening and the end of a job write, for each kind of effect.
  written_lem :
      (e : Executed)
      → (written status_written e
          ≡ when world.has_engine (created ∷ running ∷ (verdict e).status ∷ []))
        × (written final_event e
            ≡ (if eqb (verdict e).exit_code 0
                then job_finished (verdict e).status
                else job_failed (verdict e).status)
              ∷ [])
        × (written dead_letter_written e ≡ (
            if eqb (verdict e).exit_code 0
            then []
            else (finish rates options world spec started samples e).1.job.error_message ∷ []))
        × (written prediction_rows e
            ≡ map
                (λ sp. record_from_prediction started.job_id started.model_id sp.0 sp.1)
                (zip samples e.predictions))
        × (written failure_rows e
            ≡ failed_records rates options world started (zip samples e.predictions))
  unfolding finish compute_metrics new_job
  written_lem e = elim (Bool-cases world.has_engine) [
    | inl h ↦ elim (verdict-cases e) [
      | inl (code, status, _) ↦ rw (h, code, status) (refl, refl, refl, append-nil _, append-nil _)
      | inr (code, status) ↦ rw (h, code, status) (refl, refl, refl, append-nil _, append-nil _)
    ]
    | inr h ↦ elim (verdict-cases e) [
      | inl (code, status, _) ↦ rw (h, code, status) (refl, refl, refl, append-nil _, append-nil _)
      | inr (code, status) ↦ rw (h, code, status) (refl, refl, refl, append-nil _, append-nil _)
    ]
  ]

  -- A job whose model is registered and whose input and backend load ends by returning a result, when
  -- each answer of the backend is for the samples that it was given. The predictions file has a row
  -- for each sample, in their order; the processed samples are all of them; succeeded and failed
  -- samples add up to them; the failures file has a row for each failed one; and the counts of the
  -- error summary add up to the failed ones.
  pub run_inference-accounts :
      (r : InferenceRunResult rates.Rate) × ((run_inference rates options world).1 ≡ returned r)
      × (map (λ row. row.sample_id) (gather prediction_rows (run_inference rates options world).0)
          ≡ sample_ids samples)
      × (r.job.total_samples ≡ length samples)
      × (r.job.processed_samples ≡ length samples)
      × (r.report.metrics.succeeded_samples + r.job.failed_samples ≡ length samples)
      × (length (gather failure_rows (run_inference rates options world).0) ≡ r.job.failed_samples)
      × (sum_of (λ kv. kv.1) r.report.error_summary ≡ r.job.failed_samples)
  unfolding finish compute_metrics
  run_inference-accounts =
      let (e, run, aligned, triggered) = run_inference_lem in
      let same : length e.predictions ≡ length samples = ids_length e.predictions samples aligned in
      let (_, _, _, predicted, failure_written) = written_lem e in
      let result = (finish rates options world spec started samples e).1 in
      let failures = failed_records rates options world started (zip samples e.predictions) in
      let rows : length failures ≡ length e.predictions - count_if ok e.predictions = omega (
        arith,
        length-failed_records rates options world started samples e.predictions same,
        count_if-fails e.predictions,
      ) in
      (
        result,
        ap (λ l. l.1) run,
        ap (map (λ row. row.sample_id)) (run-gather prediction_rows (λ _. refl) e run ∙ predicted)
            ∙ output_ids started.job_id started.model_id samples e.predictions same,
        refl,
        same,
        omega (arith, count_if-fails e.predictions, same),
        ap length (run-gather failure_rows (λ _. refl) e run ∙ failure_written) ∙ rows,
        omega (arith, sum_of-summarize failures [], rows),
      )

  -- A job whose model is registered and whose input and backend load ends by returning a result, when
  -- each answer of the backend is for the samples that it was given. Its rows in the database, if
  -- there is one, go from CREATED to RUNNING to the final status, by transitions that are allowed.
  -- The exit code is 0 exactly when the job SUCCEEDED, and is then followed by a finished event and no
  -- dead letter; otherwise the job is FAILED, with a failed event and a dead letter.
  pub run_inference-verdict :
      (r : InferenceRunResult rates.Rate) × ((run_inference rates options world).1 ≡ returned r)
      × (gather status_written (run_inference rates options world).0
          ≡ when world.has_engine (created ∷ running ∷ r.job.status ∷ []))
      × (can_transition created running ≡ true)
      × (can_transition running r.job.status ≡ true)
      × (r.job.status ≡ (if eqb r.exit_code 0 then succeeded else failed))
      × (gather final_event (run_inference rates options world).0
          ≡ (if eqb r.exit_code 0 then job_finished succeeded else job_failed failed) ∷ [])
      × (gather dead_letter_written (run_inference rates options world).0
          ≡ (if eqb r.exit_code 0 then [] else r.job.error_message ∷ []))
  unfolding finish compute_metrics can_transition
  run_inference-verdict =
      let (e, run, aligned, triggered) = run_inference_lem in
      let (statuses, final, dead, _, _) = written_lem e in
      let (allowed, agrees, event) = verdict_lem e in
      (
        (finish rates options world spec started samples e).1,
        ap (λ l. l.1) run,
        run-gather status_written (λ _. refl) e run ∙ statuses,
        refl,
        allowed,
        agrees,
        run-gather final_event (λ _. refl) e run ∙ (final ∙ event),
        run-gather dead_letter_written (λ _. refl) e run ∙ dead,
      )

  -- A job in fail-fast mode whose model is registered and whose input and backend load, with a backend
  -- whose answers are for the samples that it was given, ends by returning a result, and it does not
  -- exit with 0 when a sample failed.
  pub run_inference-fail_fast :
      options.fail_fast ≡ true
      → (r : InferenceRunResult rates.Rate) × ((run_inference rates options world).1 ≡ returned r)
        × ((ltb 0 r.job.failed_samples && eqb r.exit_code 0) ≡ false)
  unfolding finish compute_metrics
  run_inference-fail_fast fast =
      let (e, run, aligned, triggered) = run_inference_lem in
      (
        (finish rates options world spec started samples e).1,
        ap (λ l. l.1) run,
        elim (verdict-cases e) [
          | inl (_, _, calm) ↦ ground (
            arith,
            calm,
            triggered,
            fast,
            any-count_if e.predictions,
            count_if-fails e.predictions,
          )
          | inr (code, _) ↦ ground (arith, code)
        ],
      )
