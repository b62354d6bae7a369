-- ===== src/Inference/Batch/Slices.antt =====
-- The batches are consecutive slices, and the pool keeps their order.
use robot_data_harness.Common.{
  concat, ℕ, zero, suc, ◌+◌, ◌≤◌, ◌<◌, max, ◌≡◌, refl, ap, ◌∙◌, inl, inr, List, [], ◌∷◌, ◌++◌,
  length, drop, leb, All, take-append-drop, length-take-le, length-drop, length-append, arith,
  Bool-cases, Option, none, some,
}
use mathlib.Core.List.{append_assoc}
use robot_data_harness.Inference.Batch.{
  batches_rounds, iter_batches, set, nones, collect, run_in_order, or_default,
  run_batches_concurrent,
}

-- A batch is not empty and holds at most `size` samples.
abbrev pub IsBatch {ℓ} : {A : Type ℓ} → ℕ → List A → Type 0
IsBatch size b = (0 < length b) × (length b ≤ size)

module _ {ℓ} {A : Type ℓ} where
  concat-batches_rounds :
      (rounds size : ℕ) (samples : List A)
      → length samples ≤ rounds
      → 0 < size
      → concat (batches_rounds rounds size samples) ≡ samples
  unfolding batches_rounds
  concat-batches_rounds zero size [] h pos = refl
  concat-batches_rounds zero size (s ∷ samples) h pos = absurd (omega arith)
  concat-batches_rounds (suc rounds) size [] h pos = refl
  concat-batches_rounds (suc rounds) size (s ∷ samples) h pos =
      rw
        (concat-batches_rounds rounds size (drop size (s ∷ samples))
          (omega (arith, length-drop size (s ∷ samples))) pos)
        (take-append-drop size (s ∷ samples))

  batches_rounds-IsBatch :
      (rounds size : ℕ) (samples : List A)
      → 0 < size
      → All (IsBatch size) (batches_rounds rounds size samples)
  unfolding batches_rounds
  batches_rounds-IsBatch zero size samples pos = tt
  batches_rounds-IsBatch (suc rounds) size [] pos = tt
  batches_rounds-IsBatch (suc rounds) zero (s ∷ samples) pos = elim pos [ ]
  batches_rounds-IsBatch (suc rounds) (suc n) (s ∷ samples) pos = (
    (omega arith, length-take-le (suc n) (s ∷ samples)),
    batches_rounds-IsBatch rounds (suc n) (drop n samples) pos,
  )

  -- The batches in order are the samples: none is lost, doubled or moved. Each batch holds at least
  -- one sample and at most `max(1, batch_size)`.
  pub iter_batches_slices :
      (samples : List A) (batch_size : ℕ)
      → (concat (iter_batches samples batch_size) ≡ samples)
        × All (IsBatch (max 1 batch_size)) (iter_batches samples batch_size)
  unfolding iter_batches
  iter_batches_slices samples batch_size = (
    concat-batches_rounds (length samples) (max 1 batch_size) samples (omega arith) (omega arith),
    batches_rounds-IsBatch (length samples) (max 1 batch_size) samples (omega arith),
  )

module _ {ℓ} {B : Type ℓ} where
  somes : List B → List (Option B)
  somes [] = []
  somes (x ∷ xs) = some x ∷ somes xs

  set-append :
      (done : List (Option B)) (i : ℕ) (r : Option B) (rs : List (Option B)) (v : B)
      → i ≡ length done
      → set (done ++ r ∷ rs) i v ≡ (done ++ some v ∷ []) ++ rs
  set-append [] zero r rs v e = refl
  set-append [] (suc i) r rs v e = absurd (omega arith)
  set-append (d ∷ done) zero r rs v e = absurd (omega arith)
  set-append (d ∷ done) (suc i) r rs v e = ap (◌∷◌ d) (set-append done i r rs v (omega arith))

  or_default-somes : (d : B) (xs : List B) → or_default d (somes xs) ≡ xs
  unfolding or_default somes
  or_default-somes d [] = refl
  or_default-somes d (x ∷ xs) = ap (◌∷◌ x) (or_default-somes d xs)

module _ {ℓ κ} {A : Type ℓ} {B : Type κ} where
  collect-in_order :
      (fn : ℕ → A → B) (idx : ℕ) (batches : List A) (done : List (Option B))
      → idx ≡ length done
      → collect fn idx batches (done ++ nones batches) ≡ done ++ somes (run_in_order fn idx batches)
  unfolding collect run_in_order somes
  collect-in_order fn idx [] done e = refl
  collect-in_order fn idx (b ∷ batches) done e =
      rw (set-append done idx none (nones batches) (fn idx b) e) (
        collect-in_order fn (idx + 1) batches (done ++ some (fn idx b) ∷ [])
          (omega (arith, length-append done (some (fn idx b) ∷ [])))
        ∙ append_assoc done (some (fn idx b) ∷ []) (somes (run_in_order fn (idx + 1) batches)))

-- With any number of workers the result is that of the batches run one after the other.
pub run_batches_concurrent-in_order {ℓ κ} :
    {A : Type ℓ} {R : Type κ} (batches : List A) (fn : ℕ → A → R) (default : R) (max_workers : ℕ)
    → run_batches_concurrent batches fn default max_workers ≡ run_in_order fn 0 batches
unfolding run_batches_concurrent
run_batches_concurrent-in_order batches fn default max_workers =
    elim (Bool-cases (leb max_workers 1)) [
      | inl e ↦ rw e
      | inr e ↦ rw e (elim (Bool-cases (leb (length batches) 1)) [
        | inl e' ↦ rw e'
        | inr e' ↦
            rw (e', collect-in_order fn 0 batches [] refl)
              (or_default-somes default (run_in_order fn 0 batches))
      ])
    ]
