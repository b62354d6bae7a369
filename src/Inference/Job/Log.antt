-- ===== src/Inference/Job/Log.antt =====
-- What a list of effects has written, and the counts of failures.
use robot_data_harness.Common.{
  codes, ℕ, ◌+◌, String, ◌≡◌, refl, sym, ap, ◌∙◌, inl, inr, Option, List, [], ◌∷◌, ◌++◌, map, any,
  length, sum_of, count_if, Bool-cases, Text, Dict, get, put, text_eq, ltb, arith,
}
use mathlib.Core.List.{append_assoc, append-nil}
use robot_data_harness.AiTasks.{JobStatus, Rates}
use robot_data_harness.Inference.Schemas.{InferenceSample, InferencePrediction, ok}
use robot_data_harness.Inference.Failures.{FailedSampleRecord}
use robot_data_harness.Inference.Execute.{fails}
use robot_data_harness.Inference.Execute.Retry.{sample_ids}
use robot_data_harness.Inference.Records.{
  InferenceJob, InferenceOutputRecord, record_from_prediction, Event, batch_finished, job_finished,
  job_failed, Effect, emit, write_job_pg, write_predictions, write_failed_samples,
  record_dead_letter, InferenceOptions, InferenceWorld,
}
use robot_data_harness.Inference.Job.{failed_records, summarize, count_of, text_or, zip}

-- What the effects of a list give, in order.
abbrev pub gather {ℓ κ} : {A : Type ℓ} {B : Type κ} → (A → List B) → List A → List B
gather f [] = []
gather f (x ∷ xs) = f x ++ gather f xs

pub gather-append {ℓ κ} :
    {A : Type ℓ} {B : Type κ} (f : A → List B) (xs ys : List A)
    → gather f (xs ++ ys) ≡ gather f xs ++ gather f ys
gather-append f [] ys = refl
gather-append f (x ∷ xs) ys =
    ap (λ l. f x ++ l) (gather-append f xs ys)
    ∙ sym (append_assoc (f x) (gather f xs) (gather f ys))

-- The statuses that the rows of the job take, one after the other.
abbrev pub status_written : {Rate : Type 0} → Effect Rate → List JobStatus
status_written (write_job_pg job) = job.status ∷ []
status_written _ = []

abbrev pub final_event : {Rate : Type 0} → Effect Rate → List Event
final_event (emit (job_finished s)) = job_finished s ∷ []
final_event (emit (job_failed s)) = job_failed s ∷ []
final_event _ = []

abbrev pub dead_letter_written : {Rate : Type 0} → Effect Rate → List (Option (ℕ × Option Text))
dead_letter_written (record_dead_letter reason summary) = reason ∷ []
dead_letter_written _ = []

abbrev pub prediction_rows : {Rate : Type 0} → Effect Rate → List InferenceOutputRecord
prediction_rows (write_predictions rows) = rows
prediction_rows _ = []

abbrev pub failure_rows : {Rate : Type 0} → Effect Rate → List FailedSampleRecord
failure_rows (write_failed_samples rows) = rows
failure_rows _ = []

pub gather-batches {ℓ} :
    {Rate : Type 0} {B : Type ℓ} (f : Effect Rate → List B)
    → ((i : ℕ) → f (emit (batch_finished i)) ≡ [])
    → (finished : List ℕ) → gather f (map (λ i. emit (batch_finished i)) finished) ≡ []
gather-batches f h [] = refl
gather-batches f h (i ∷ finished) = rw (h i) (gather-batches f h finished)

pub gather-log {ℓ} :
    {Rate : Type 0} {B : Type ℓ} (f : Effect Rate → List B)
    → ((i : ℕ) → f (emit (batch_finished i)) ≡ [])
    → (opening ending : List (Effect Rate)) (finished : List ℕ)
    → gather f (opening ++ map (λ i. emit (batch_finished i)) finished ++ ending)
      ≡ gather f opening ++ gather f ending
gather-log f h opening ending finished =
    let batches = map (λ i. emit (batch_finished i)) finished in
    gather-append f (opening ++ batches) ending
    ∙ ap (λ l. l ++ gather f ending)
        (gather-append f opening batches
          ∙ (ap (λ l. gather f opening ++ l) (gather-batches f h finished)
              ∙ append-nil (gather f opening)))

-- Counting one more under a key adds one to the sum of the counts.
pub sum_of-put :
    (key : Text) (d : Dict Text ℕ)
    → sum_of (λ kv. kv.1) (put key (count_of (get key d) + 1) d) ≡ sum_of (λ kv. kv.1) d + 1
unfolding get put
sum_of-put key [] = refl
sum_of-put key ((k, n) ∷ d) = ground (arith, sum_of-put key d)

pub sum_of-summarize :
    (frs : List FailedSampleRecord) (d : Dict Text ℕ)
    → sum_of (λ kv. kv.1) (summarize frs d) ≡ sum_of (λ kv. kv.1) d + length frs
unfolding summarize
sum_of-summarize [] d = omega arith
sum_of-summarize (fr ∷ frs) d =
    let key = text_or fr.error_type (codes "UNKNOWN") in
    omega (arith, sum_of-summarize frs (put key (count_of (get key d) + 1) d), sum_of-put key d)

pub count_if-fails :
    (ps : List InferencePrediction) → count_if ok ps + count_if fails ps ≡ length ps
count_if-fails [] = refl
count_if-fails (p ∷ ps) = ground (arith, count_if-fails ps)

pub any-count_if : (ps : List InferencePrediction) → any fails ps ≡ ltb 0 (count_if fails ps)
any-count_if [] = refl
any-count_if (p ∷ ps) = ground (arith, any-count_if ps)

pub output_ids :
    (job_id model_id : String) (samples : List InferenceSample) (ps : List InferencePrediction)
    → length ps ≡ length samples
    → map
        (λ row. row.sample_id)
        (map (λ sp. record_from_prediction job_id model_id sp.0 sp.1) (zip samples ps))
      ≡ sample_ids samples
unfolding record_from_prediction
output_ids job_id model_id [] [] h = refl
output_ids job_id model_id [] (p ∷ ps) h = refl
output_ids job_id model_id (s ∷ samples) [] h = absurd (omega (arith, h))
output_ids job_id model_id (s ∷ samples) (p ∷ ps) h =
    ap (◌∷◌ s.sample_id) (output_ids job_id model_id samples ps (omega (arith, h)))

module _ (rates : Rates) (options : InferenceOptions rates.Rate) (world : InferenceWorld) where
  pub length-failed_records :
      (job : InferenceJob) (samples : List InferenceSample) (ps : List InferencePrediction)
      → length ps ≡ length samples
      → length (failed_records rates options world job (zip samples ps)) ≡ count_if fails ps
  unfolding failed_records
  length-failed_records job [] [] h = refl
  length-failed_records job [] (p ∷ ps) h = absurd (omega arith)
  length-failed_records job (s ∷ samples) [] h = absurd (omega arith)
  length-failed_records job (s ∷ samples) (p ∷ ps) h = elim (Bool-cases (fails p)) [
    | inl e ↦ rw e (omega (arith, length-failed_records job samples ps (omega (arith, h))))
    | inr e ↦ rw e (omega (arith, length-failed_records job samples ps (omega (arith, h))))
  ]
