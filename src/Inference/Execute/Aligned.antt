-- ===== src/Inference/Execute/Aligned.antt =====
-- The run of all batches: one prediction for each sample, and when a fail-fast run stops early.
use robot_data_harness.Common.{
  String, concat, ℕ, ◌+◌, ◌≡◌, refl, sym, ap, ◌∙◌, inl, inr, Bool, true, false, ◌||◌, ◌&&◌, some,
  List, [], ◌∷◌, ◌++◌, length, drop, any, length-map, Bool-cases, arith,
}
use mathlib.Core.List.{append_assoc, append-nil}
use robot_data_harness.Inference.Schemas.{InferenceSample, InferencePrediction, ModelSpec}
use robot_data_harness.Inference.Batch.{iter_batches, run_in_order}
use robot_data_harness.Inference.Batch.Slices.{iter_batches_slices, run_batches_concurrent-in_order}
use robot_data_harness.Inference.Execute.{
  Backend, Executed, fails, fail_fast_loop, run_pool, execute, sequence, skipped_predictions,
  skipped_prediction, predict_with_retry, indices,
}
use robot_data_harness.Inference.Execute.Retry.{
  Answers, sample_ids, prediction_ids, predict_with_retry-ids,
}

ids-append :
    (ps qs : List InferencePrediction)
    → prediction_ids (ps ++ qs) ≡ prediction_ids ps ++ prediction_ids qs
ids-append [] qs = refl
ids-append (p ∷ ps) qs = ap (◌∷◌ p.sample_id) (ids-append ps qs)

sample_ids-append :
    (xs ys : List InferenceSample) → sample_ids (xs ++ ys) ≡ sample_ids xs ++ sample_ids ys
sample_ids-append [] ys = refl
sample_ids-append (s ∷ xs) ys = ap (◌∷◌ s.sample_id) (sample_ids-append xs ys)

any-append :
    (ps qs : List InferencePrediction) → any fails (ps ++ qs) ≡ (any fails ps || any fails qs)
any-append [] qs = refl
any-append (p ∷ ps) qs = ground (arith, any-append ps qs)

skipped-ids :
    (lower : String → String) (spec : ModelSpec) (samples : List InferenceSample)
    → prediction_ids (skipped_predictions lower spec samples) ≡ sample_ids samples
unfolding skipped_predictions skipped_prediction
skipped-ids lower spec [] = refl
skipped-ids lower spec (s ∷ samples) = ap (◌∷◌ s.sample_id) (skipped-ids lower spec samples)

drop-append {ℓ} : {A : Type ℓ} (xs ys : List A) → drop (length xs) (xs ++ ys) ≡ ys
drop-append [] ys = refl
drop-append (x ∷ xs) ys = drop-append xs ys

pub ids_length :
    (ps : List InferencePrediction) (xs : List InferenceSample)
    → prediction_ids ps ≡ sample_ids xs
    → length ps ≡ length xs
ids_length ps xs h = sym (length-map _ ps) ∙ (ap length h ∙ length-map _ xs)

-- An answer for each sample, in their order.
abbrev pub IsAligned : List InferenceSample → Executed → Type 0
IsAligned samples e = prediction_ids e.predictions ≡ sample_ids samples

module _ (lower : String → String) (backend : Backend) (answers : Answers backend)
    (spec : ModelSpec) (retry : ℕ) where
  -- The answers so far and the skipped ones are aligned.
  after_stop :
      (samples done left : List InferenceSample) (predictions : List InferencePrediction)
      → done ++ left ≡ samples
      → prediction_ids predictions ≡ sample_ids done
      → prediction_ids
          (predictions ++ skipped_predictions lower spec (drop (length predictions) samples))
        ≡ sample_ids samples
  after_stop samples done left predictions cut same =
      let skipped = skipped_predictions lower spec (drop (length predictions) samples) in
      let remaining : drop (length predictions) samples ≡ left =
        rw (ids_length predictions done same, sym cut) (drop-append done left) in
      ids-append predictions skipped
      ∙ (ap (λ l. prediction_ids predictions ++ l)
            (skipped-ids lower spec _ ∙ ap sample_ids remaining)
          ∙ (cc same ∙ (sym (sample_ids-append done left) ∙ ap sample_ids cut)))

  fail_fast_loop_lem :
      (samples done : List InferenceSample) (index : ℕ) (batches : List (List InferenceSample))
      (predictions : List InferencePrediction) (finished : List ℕ)
      → done ++ concat batches ≡ samples
      → prediction_ids predictions ≡ sample_ids done
      → any fails predictions ≡ false
      → (e : Executed) × (fail_fast_loop lower backend spec retry samples index batches predictions
            finished
          ≡ some e)
        × IsAligned samples e
        × (e.fail_fast_triggered ≡ any fails e.predictions)
  unfolding fail_fast_loop
  fail_fast_loop_lem samples done index [] predictions finished cut same good =
      let e : Executed = record {
        predictions = predictions;
        fail_fast_triggered = false;
        batches_finished = finished;
      } in
      (e, refl, same ∙ ap sample_ids (sym (append-nil done) ∙ cut), sym good)
  fail_fast_loop_lem samples done index (batch ∷ batches) predictions finished cut same good =
      let (preds, returns, own) = predict_with_retry-ids backend answers retry index batch in
      let joined : prediction_ids (predictions ++ preds) ≡ sample_ids (done ++ batch) =
        ids-append predictions preds ∙ (cc (same, own) ∙ sym (sample_ids-append done batch)) in
      let cut' : done ++ batch ++ concat batches ≡ samples =
        append_assoc done batch (concat batches) ∙ cut in
      elim (Bool-cases (any fails preds)) [
        | inl stop ↦
            let skipped =
              skipped_predictions lower spec (drop (length (predictions ++ preds)) samples) in
            let e : Executed = record {
              predictions = predictions ++ preds ++ skipped;
              fail_fast_triggered = true;
              batches_finished = finished ++ index ∷ [];
            } in
            (
              e,
              rw (returns, stop) refl,
              after_stop samples (done ++ batch) (concat batches) (predictions ++ preds) cut'
                  joined,
              rw
                  (
                    any-append (predictions ++ preds) skipped,
                    any-append predictions preds,
                    good,
                    stop,
                  )
                  refl,
            )
        | inr go ↦
            let (e, result, aligned, triggered) =
              fail_fast_loop_lem samples (done ++ batch) (index + 1) batches (predictions ++ preds)
                (finished ++ index ∷ []) cut' joined
                (ground (arith, any-append predictions preds, good, go)) in
            (e, rw (returns, go) result, aligned, triggered)
      ]

  sequence-ids :
      (index : ℕ) (batches : List (List InferenceSample))
      → (ps : List InferencePrediction) × (sequence
            (run_in_order (predict_with_retry backend retry) index batches)
          ≡ some ps)
        × (prediction_ids ps ≡ sample_ids (concat batches))
  unfolding sequence run_in_order
  sequence-ids index [] = ([], refl, refl)
  sequence-ids index (batch ∷ batches) =
      let (preds, returns, own) = predict_with_retry-ids backend answers retry index batch in
      let (ps, rest, own') = sequence-ids (index + 1) batches in
      (
        preds ++ ps,
        rw (returns, rest),
        ids-append preds ps ∙ (cc (own, own') ∙ sym (sample_ids-append batch (concat batches))),
      )

  -- When each answer of the backend is for the samples that it was given, the run of a job returns in
  -- both modes one prediction for each sample, in the order of the samples, however many workers,
  -- batches and attempts there are. It reports a fail-fast stop exactly when it was asked to fail fast
  -- and some prediction is not OK.
  pub execute-IsAligned :
      (samples : List InferenceSample) (max_workers batch_size : ℕ) (fail_fast : Bool)
      → (e : Executed) × (execute lower backend spec retry samples max_workers batch_size fail_fast
          ≡ some e)
        × IsAligned samples e
        × (e.fail_fast_triggered ≡ (fail_fast && any fails e.predictions))
  unfolding execute run_pool
  execute-IsAligned samples max_workers batch_size true =
      fail_fast_loop_lem samples [] 0 (iter_batches samples batch_size) [] []
        (iter_batches_slices samples batch_size).0 refl refl
  execute-IsAligned samples max_workers batch_size false =
      let batches = iter_batches samples batch_size in
      let (ps, returns, own) = sequence-ids 0 batches in
      (
        record {
          predictions = ps;
          fail_fast_triggered = false;
          batches_finished = indices 0 batches;
        },
        rw (
          run_batches_concurrent-in_order batches (predict_with_retry backend retry) (some [])
              max_workers,
          returns,
        ),
        own ∙ ap sample_ids (iter_batches_slices samples batch_size).0,
        refl,
      )
