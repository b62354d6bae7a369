-- ===== src/Inference/Execute/Retry.antt =====
-- The retries of one batch: every sample keeps an answer of its own, and an answer that is OK stays.
use robot_data_harness.Common.{
  ℕ, zero, suc, ◌+◌, String, ◌≡◌, refl, subst, ◌⊎◌, inl, inr, some, List, [], ◌∷◌, map, select, All,
  All-map, get, put, get-put, string_eq, eq_iff, Bool-cases, List-cases, ◌==◌,
}
use robot_data_harness.Inference.Schemas.{InferenceSample, InferencePrediction}
use robot_data_harness.Inference.Execute.{
  Backend, ById, put_all, needs_retry, predictions_of, retry_rounds, predict_with_retry,
}

abbrev pub sample_ids : List InferenceSample → List String
sample_ids = map (λ s. s.sample_id)

abbrev pub prediction_ids : List InferencePrediction → List String
prediction_ids = map (λ p. p.sample_id)

-- The documented contract of `predict_batch`: as many predictions as samples, in their order.
abbrev pub Answers : Backend → Type 0
Answers backend =
    (index call : ℕ) (batch : List InferenceSample)
    → prediction_ids (backend index call batch) ≡ sample_ids batch

-- The entry of an id is a prediction for it.
abbrev Has : ById → String → Type 0
Has by_id k = (p : InferencePrediction) × (get k by_id ≡ some p) × (p.sample_id ≡ k)

put-Has :
    (q : InferencePrediction) (by_id : ById) (k : String)
    → (q.sample_id ≡ k) ⊎ Has by_id k
    → Has (put q.sample_id q by_id) k
put-Has q by_id k h = elim (Bool-cases (q.sample_id == k)) [
  | inl e ↦ (q, rw (get-put q.sample_id k q by_id, e) refl, (eq_iff q.sample_id k).0 e)
  | inr e ↦ elim h [
    | inl same ↦ cc (e, (eq_iff q.sample_id k).1 same)
    | inr (p, found, own) ↦ (p, rw (get-put q.sample_id k q by_id, e) found, own)
  ]
]

put_all-Has :
    (ps : List InferencePrediction) (by_id : ById) (k : String)
    → Has by_id k
    → Has (put_all ps by_id) k
unfolding put_all
put_all-Has [] by_id k h = h
put_all-Has (p ∷ ps) by_id k h =
    put_all-Has ps (put p.sample_id p by_id) k (put-Has p by_id k (inr h))

put_all-covers :
    (ps : List InferencePrediction) (by_id : ById)
    → All (Has (put_all ps by_id)) (prediction_ids ps)
unfolding put_all
put_all-covers [] by_id = tt
put_all-covers (p ∷ ps) by_id = (
  put_all-Has ps (put p.sample_id p by_id) p.sample_id (put-Has p by_id p.sample_id (inl refl)),
  put_all-covers ps (put p.sample_id p by_id),
)

predictions_of-ids :
    (batch : List InferenceSample) (by_id : ById)
    → All (Has by_id) (sample_ids batch)
    → (ps : List InferencePrediction) × (predictions_of batch by_id ≡ some ps)
      × (prediction_ids ps ≡ sample_ids batch)
unfolding predictions_of
predictions_of-ids [] by_id h = ([], refl, refl)
predictions_of-ids (s ∷ batch) by_id h =
    let (p, e, own) = h.0 in
    let (ps, e', own') = predictions_of-ids batch by_id h.1 in (p ∷ ps, rw (e, e'), cc)

module _ (backend : Backend) (answers : Answers backend) where
  retry_rounds-Has :
      (left index call : ℕ) (batch : List InferenceSample) (by_id : ById)
      → All (Has by_id) (sample_ids batch)
      → All (Has (retry_rounds backend left index call batch by_id)) (sample_ids batch)
  unfolding retry_rounds
  retry_rounds-Has zero index call batch by_id h = h
  retry_rounds-Has (suc left) index call batch by_id h =
      elim (List-cases (select (needs_retry by_id) batch)) [
        | inl e ↦ rw (e, retry_rounds) h
        | inr (s, samples, e) ↦
            let answer = backend index call (s ∷ samples) in
            rw (e, retry_rounds)
              (retry_rounds-Has left index (call + 1) batch (put_all answer by_id) (
                All-map (Has by_id) (Has (put_all answer by_id)) (put_all-Has answer by_id)
                  (sample_ids batch) h))
      ]

  -- With a backend that keeps its contract, a batch never ends in a KeyError: it returns one
  -- prediction for each sample, in the order of the samples, however often it is retried.
  pub predict_with_retry-ids :
      (retry index : ℕ) (batch : List InferenceSample)
      → (ps : List InferencePrediction) × (predict_with_retry backend retry index batch ≡ some ps)
        × (prediction_ids ps ≡ sample_ids batch)
  unfolding predict_with_retry
  predict_with_retry-ids retry index batch =
      let first = backend index 0 batch in
      predictions_of-ids batch (retry_rounds backend retry index 1 batch (put_all first [])) (
        retry_rounds-Has retry index 1 batch (put_all first [])
          (subst (All (Has (put_all first []))) (answers index 0 batch) (put_all-covers first [])))
