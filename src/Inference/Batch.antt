-- ===== src/Inference/Batch.antt =====
-- src/robot_dh/inference/batch.py: the samples cut into batches, and the run of all batches.
pub mod Slices
use robot_data_harness.Common.{
  ℕ, zero, suc, ◌+◌, max, List, [], ◌∷◌, map, length, take, drop, leb, if◌then◌else◌, Option, none,
  some,
}

-- One round for each batch; as many rounds as there are samples are enough.
pub batches_rounds {ℓ} : {A : Type ℓ} → ℕ → ℕ → List A → List (List A)
batches_rounds zero size samples = []
batches_rounds (suc rounds) size [] = []
batches_rounds (suc rounds) size (s ∷ samples) =
    take size (s ∷ samples) ∷ batches_rounds rounds size (drop size (s ∷ samples))

unfoldable pub iter_batches {ℓ} : {A : Type ℓ} → List A → ℕ → List (List A)
unfolding batches_rounds
iter_batches samples batch_size = batches_rounds (length samples) (max 1 batch_size) samples

module _ {ℓ} {B : Type ℓ} where
  -- results[idx] = value
  abbrev pub set : List (Option B) → ℕ → B → List (Option B)
  set [] i v = []
  set (x ∷ xs) zero v = some v ∷ xs
  set (x ∷ xs) (suc i) v = x ∷ set xs i v

  -- [r if r is not None else [] for r in results]
  pub or_default : B → List (Option B) → List B
  or_default d [] = []
  or_default d (none ∷ rs) = d ∷ or_default d rs
  or_default d (some r ∷ rs) = r ∷ or_default d rs

module _ {ℓ κ} {A : Type ℓ} {B : Type κ} where
  -- [None] * n
  abbrev pub nones : List A → List (Option B)
  nones [] = []
  nones (x ∷ xs) = none ∷ nones xs

  -- The loop over the futures in the order of submission; each is awaited and put at its index.
  pub collect : (ℕ → A → B) → ℕ → List A → List (Option B) → List (Option B)
  collect fn idx [] results = results
  collect fn idx (b ∷ batches) results = collect fn (idx + 1) batches (set results idx (fn idx b))

  unfoldable pub run_in_order : (ℕ → A → B) → ℕ → List A → List B
  run_in_order fn idx [] = []
  run_in_order fn idx (b ∷ batches) = fn idx b ∷ run_in_order fn (idx + 1) batches

-- `fn` is given the index of its batch, since what a backend answers may differ from call to call.
-- Its result is of any type, so that it can be that of a call which raises.
unfoldable pub run_batches_concurrent {ℓ κ} :
    {A : Type ℓ} {R : Type κ} → List A → (ℕ → A → R) → (default : R) → (max_workers : ℕ) → List R
unfolding collect run_in_order or_default
run_batches_concurrent batches fn default max_workers =
    if leb max_workers 1
    then run_in_order fn 0 batches
    else if leb (length batches) 1
    then run_in_order fn 0 batches
    else or_default default (collect fn 0 batches (nones batches))
