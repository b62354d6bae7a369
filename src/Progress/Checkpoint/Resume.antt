-- ===== src/Progress/Checkpoint/Resume.antt =====
-- What a run that was cut off finds when it loads its checkpoint.
use robot_data_harness.Common.{
  ◌≡◌, refl, ap, ◌∙◌, inl, inr, Bool, true, false, ◌||◌, some, List, [], ◌∷◌, ◌++◌, map,
  if◌then◌else◌, String, ◌==◌, eq_iff, one_of, Dict, get-put, string_eq, Bool-cases, arith,
}
use robot_data_harness.Progress.Checkpoint.{
  CheckpointFile, Checkpoint, Payload, LakeStore, entry_to_dict, entry_from_dict, to_dict,
  from_dict, file_to_dict, mark_step, upsert_file, has_step, file_status, load, save,
}

-- What a task reports while it runs.
pub data Edit : Type 0 where
  marks : String → Edit
  upserts : CheckpointFile → Edit

module _ {Metrics : Type 0} where
  unfoldable pub edited : String → List Edit → Checkpoint Metrics → Checkpoint Metrics
  edited now [] c = c
  edited now (marks step ∷ edits) c = edited now edits (mark_step now step c)
  edited now (upserts file ∷ edits) c = edited now edits (upsert_file now file c)

-- The step is marked by one of the edits.
unfoldable pub marked : String → List Edit → Bool
marked step [] = false
marked step (marks other ∷ edits) = step == other || marked step edits
marked step (upserts file ∷ edits) = marked step edits

-- The status of the file after the edits: that of its last report, or the one before them.
unfoldable pub reported : String → List Edit → String → String
reported name [] status = status
reported name (marks step ∷ edits) status = reported name edits status
reported name (upserts file ∷ edits) status =
    reported name edits (if file.name == name then file.status else status)

one_of-append :
    (s : String) (xs : List String) (x : String) → one_of s (xs ++ x ∷ []) ≡ (one_of s xs || s == x)
one_of-append s [] x = ground arith
one_of-append s (y ∷ xs) x = ground (arith, one_of-append s xs x)

from_dict-files :
    (files : Dict String CheckpointFile) → map entry_from_dict (map entry_to_dict files) ≡ files
unfolding file_to_dict
from_dict-files [] = refl
from_dict-files ((k, file) ∷ files) = ap (◌∷◌ (k, file)) (from_dict-files files)

module _ {Metrics : Type 0} where
  has_step-mark_step :
      (now step other : String) (c : Checkpoint Metrics)
      → has_step step (mark_step now other c) ≡ (has_step step c || step == other)
  unfolding has_step mark_step
  has_step-mark_step now step other c = elim (Bool-cases (one_of other c.completed_steps)) [
    | inl e ↦ elim (Bool-cases (step == other)) [
      | inl q ↦
          let same = ap (λ s. one_of s c.completed_steps) ((eq_iff step other).0 q) in
          rw e (ground (arith, q, same, e))
      | inr q ↦ rw e (ground (arith, q))
    ]
    | inr e ↦ rw e (one_of-append step c.completed_steps other)
  ]

  has_step-edited :
      (now step : String) (edits : List Edit) (c : Checkpoint Metrics)
      → has_step step (edited now edits c) ≡ (has_step step c || marked step edits)
  unfolding edited marked has_step upsert_file
  has_step-edited now step [] c = ground arith
  has_step-edited now step (marks other ∷ edits) c = ground (
    arith,
    has_step-edited now step edits (mark_step now other c),
    has_step-mark_step now step other c,
  )
  has_step-edited now step (upserts file ∷ edits) c =
      has_step-edited now step edits (upsert_file now file c)

  file_status-upsert_file :
      (now name : String) (file : CheckpointFile) (c : Checkpoint Metrics)
      → file_status name (upsert_file now file c)
        ≡ (if file.name == name then file.status else file_status name c)
  unfolding file_status upsert_file
  file_status-upsert_file now name file c =
      rw (get-put file.name name file c.files)
        (elim (Bool-cases (file.name == name)) [ inl q ↦ rw q refl | inr q ↦ rw q refl ])

  file_status-edited :
      (now name : String) (edits : List Edit) (c : Checkpoint Metrics)
      → file_status name (edited now edits c) ≡ reported name edits (file_status name c)
  unfolding edited reported file_status mark_step
  file_status-edited now name [] c = refl
  file_status-edited now name (marks step ∷ edits) c =
      file_status-edited now name edits (mark_step now step c)
  file_status-edited now name (upserts file ∷ edits) c =
      file_status-edited now name edits (upsert_file now file c)
      ∙ ap (reported name edits) (file_status-upsert_file now name file c)

  from_dict-to_dict :
      (empty : Metrics) (now : String) (c : Checkpoint Metrics)
      → from_dict empty now (to_dict c) ≡ c
  unfolding from_dict to_dict
  from_dict-to_dict empty now c = rw (from_dict-files c.files) refl

  -- When the store reads what was written last, a task that edits its checkpoint and saves it finds, when
  -- it loads it again, a step to be done exactly when it was before or one of the edits marked it, and a
  -- file with the status that was reported of it last.
  pub load-save :
      {World : Type 0} (store : LakeStore Metrics World) (empty : Metrics) (now later : String)
      (edits : List Edit) (c : Checkpoint Metrics) (world : World) (step name : String)
      → ((payload : Payload Metrics) (w : World)
          → (store.exists (store.write_json payload w) ≡ true)
            × (store.read_json (store.write_json payload w) ≡ some payload))
      → (loaded : Checkpoint Metrics) × (load store empty later
            (save store now (edited now edits c) world).1
          ≡ some loaded)
        × (has_step step loaded ≡ (has_step step c || marked step edits))
        × (file_status name loaded ≡ reported name edits (file_status name c))
  unfolding load save has_step file_status
  load-save store empty now later edits c world step name law =
      let saved : Checkpoint Metrics = record (edited now edits c) { updated_at = now } in
      let (there, read) = law (to_dict saved) world in
      (
        saved,
        rw (there, read, from_dict-to_dict empty later saved) refl,
        has_step-edited now step edits c,
        file_status-edited now name edits c,
      )
