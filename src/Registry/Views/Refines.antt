-- ===== src/Registry/Views/Refines.antt =====
-- The tables behave as the readings say, and keep their keys unique.
use robot_data_harness.Common.{
  ℕ, ◌≡◌, refl, sym, ap, ◌∙◌, inl, inr, Option, none, some, List, [], ◌∷◌, ◌++◌, map, String, Eq,
  string_eq, pair_eq, if◌then◌else◌, Bool-cases, Option-cases, All,
}
use mathlib.Core.Path.{fun_ext}
use mathlib.Core.Option
use robot_data_harness.Registry.Schema.{
  DatasetRow, Database, RunRow, ValidatorResultRow, GateResultRow, ArtifactRow,
}
use robot_data_harness.Registry.Tables.{find, delete_one, delete_where, modify, IsUnique}
use robot_data_harness.Registry.Tables.Laws.{
  find-replace, find-modify, find-insert, select-replace, on_some,
}
use robot_data_harness.Registry.Records.{
  Platform, dataset_record, run_record, RunDetailRecord, validator_result_record,
  gate_result_record, artifact_record,
}
use robot_data_harness.Registry.Datasets.{
  DatasetFields, or_old, upsert_dataset, update_dataset_last_run, get_dataset, dataset_key,
  set_or_add, set_dataset_row, new_dataset_row, set_last_run,
}
use robot_data_harness.Registry.Runs.{or_default, run_key}
use robot_data_harness.Registry.Service.{get_run_detail, run_detail, get_scan_job}
use robot_data_harness.Registry.Views.{
  View, update, view_of, act, touched, described, with_last_run, upserts,
}

module _ {F : Type 0} where
  -- A dataset of an upsert reads as set, and the others as before.
  find-upsert :
      (now : ℕ) (fields : DatasetFields F) (rows : List (DatasetRow F)) (j : String × String)
      (old : Option (DatasetRow F))
      → find dataset_key (fields.dataset_id, fields.version) rows ≡ old
      → find dataset_key j (set_or_add now fields rows old) ≡ (
          if pair_eq.beq (fields.dataset_id, fields.version) j
          then some (set_dataset_row now fields (or_default (new_dataset_row now fields) old))
          else find dataset_key j rows)
  unfolding set_dataset_row
  find-upsert now fields rows j none h =
      find-insert dataset_key j (set_dataset_row now fields (new_dataset_row now fields)) rows h
  find-upsert now fields rows j (some row) h =
      let k : String × String = (fields.dataset_id, fields.version) in
      elim (Bool-cases (pair_eq.beq k j)) [
        | inl q ↦
            let same = ap (λ k. find dataset_key k rows) ((pair_eq.beq_iff k j).0 q) in
            rw
              (
                find-modify dataset_key j k (set_dataset_row now fields) rows (λ r. refl),
                q,
                sym same ∙ h,
              )
              refl
        | inr q ↦
            rw (find-modify dataset_key j k (set_dataset_row now fields) rows (λ r. refl), q) refl
      ]

module _ {ℓ κ μ} {R : Type ℓ} {K : Type κ} {V : Type μ} ⦃e : Eq K⦄ (key : R → K)
    (show : R → V) where
  -- The reading of a table whose row with one key is changed.
  shown-modify :
      (f : R → R) (g : Option V → Option V)
      → ((r : R) → key (f r) ≡ key r)
      → ((o : Option R) → Option.map show (on_some f o) ≡ g (Option.map show o))
      → (k j : K) (rows : List R)
      → Option.map show (find key j (modify key k f rows))
        ≡ update k
            (g (Option.map show (find key k rows)))
            (λ j. Option.map show (find key j rows))
            j
  shown-modify f g hk hg k j rows = elim (Bool-cases (e.beq k j)) [
    | inl q ↦
        let same = ap (λ k. find key k rows) ((e.beq_iff k j).0 q) in
        rw (find-modify key j k f rows hk, q, same) (hg (find key j rows))
    | inr q ↦ rw (find-modify key j k f rows hk, q) refl
  ]

pub View-ext :
    {F Json : Type 0} (v w : View F Json)
    → v.dataset ≡ w.dataset
    → v.run ≡ w.run
    → v.scan ≡ w.scan
    → v ≡ w
View-ext v w p q r = λ i. record { dataset = p i; run = q i; scan = r i }

module _ {F : Type 0} where
  -- The rows of a run that replaces what stood under its id.
  unfoldable pub replaced :
      RunRow F
      → List (ValidatorResultRow F)
      → List GateResultRow
      → List ArtifactRow
      → Database F
      → Database F
  replaced row validators gates artifacts db = record db {
    validator_results =
        delete_where (λ row. row.run_id) row.run_id db.validator_results ++ validators;
    gate_results = delete_where (λ row. row.run_id) row.run_id db.gate_results ++ gates;
    artifacts = delete_where (λ row. row.run_id) row.run_id db.artifacts ++ artifacts;
    runs = delete_one run_key row.run_id db.runs ++ row ∷ [];
  }

or_old_lem : (value : Option String) → or_old value none ≡ value
or_old_lem none = refl
or_old_lem (some value) = refl

module _ {F Json : Type 0} (platform : Platform Json) where
  dataset_record-set_dataset_row :
      (now : ℕ) (fields : DatasetFields F) (old : Option (DatasetRow F))
      → dataset_record platform
          (set_dataset_row now fields (or_default (new_dataset_row now fields) old))
        ≡ described platform now fields (Option.map (dataset_record platform) old)
  unfolding dataset_record set_dataset_row
  dataset_record-set_dataset_row now fields none =
      rw (or_old_lem fields.last_status, or_old_lem fields.last_run_id) refl
  dataset_record-set_dataset_row now fields (some row) = refl

  dataset_record-set_last_run :
      (now : ℕ) (status run_id : String) (old : Option (DatasetRow F))
      → Option.map (dataset_record platform) (on_some (set_last_run now status run_id) old)
        ≡ touched platform now status run_id (Option.map (dataset_record platform) old)
  unfolding dataset_record set_last_run
  dataset_record-set_last_run now status run_id none = refl
  dataset_record-set_last_run now status run_id (some row) = refl

  pub upsert_dataset-act :
      (now : ℕ) (fields : DatasetFields F) (db : Database F)
      → view_of platform (upsert_dataset now fields db)
        ≡ act platform (upserts now fields) (view_of platform db)
  unfolding view_of act upsert_dataset get_dataset get_run_detail run_detail get_scan_job
  upsert_dataset-act now fields db =
      let k : String × String = (fields.dataset_id, fields.version) in
      let old = find dataset_key k db.datasets in
      View-ext _ _
        (fun_ext (λ j.
          rw (find-upsert now fields db.datasets j old refl) (elim (Bool-cases (pair_eq.beq k j)) [
            | inl q ↦ rw q (ap some (dataset_record-set_dataset_row now fields old))
            | inr q ↦ rw q refl
          ])))
        refl refl

  pub update_dataset_last_run-act :
      (now : ℕ) (dataset_id version status run_id : String) (db : Database F)
      → view_of platform (update_dataset_last_run now dataset_id version status run_id db)
        ≡ with_last_run platform now (dataset_id, version) status run_id (view_of platform db)
  unfolding view_of update_dataset_last_run get_dataset get_run_detail run_detail get_scan_job
      set_last_run
  update_dataset_last_run-act now dataset_id version status run_id db =
      View-ext _ _
        (fun_ext (λ j.
          shown-modify dataset_key (dataset_record platform) (set_last_run now status run_id)
            (touched platform now status run_id) (λ r. refl)
            (dataset_record-set_last_run now status run_id) (dataset_id, version) j db.datasets))
        refl refl

  unfoldable pub detail_of :
      RunRow F
      → List (ValidatorResultRow F)
      → List GateResultRow
      → List ArtifactRow
      → RunDetailRecord F Json
  detail_of row validators gates artifacts = record {
    run = run_record platform row;
    validator_results = map (validator_result_record platform) validators;
    gate_results = map (gate_result_record platform) gates;
    artifacts = map artifact_record artifacts;
  }

  pub get_run_detail-replaced :
      (row : RunRow F) (validators : List (ValidatorResultRow F)) (gates : List GateResultRow)
      (artifacts : List ArtifactRow) (db : Database F)
      → IsUnique run_key db.runs
      → All (λ r. r.run_id ≡ row.run_id) validators
      → All (λ r. r.run_id ≡ row.run_id) gates
      → All (λ r. r.run_id ≡ row.run_id) artifacts
      → (j : String)
      → get_run_detail platform j (replaced row validators gates artifacts db)
        ≡ update row.run_id
            (some (detail_of row validators gates artifacts))
            (λ j. get_run_detail platform j db)
            j
  unfolding replaced detail_of get_run_detail run_detail
  get_run_detail-replaced row validators gates artifacts db u hv hg ha j =
      let find_new = find-replace run_key j row db.runs u in
      let new_validators =
        select-replace (λ (r : ValidatorResultRow F). r.run_id) j row.run_id db.validator_results
          validators hv in
      let new_gates =
        select-replace (λ (r : GateResultRow). r.run_id) j row.run_id db.gate_results gates hg in
      let new_artifacts =
        select-replace (λ (r : ArtifactRow). r.run_id) j row.run_id db.artifacts artifacts ha in
      rw find_new (elim (Bool-cases (string_eq.beq row.run_id j)) [
        | inl q ↦ rw q (rw (new_validators, new_gates, new_artifacts, q) refl)
        | inr q ↦ rw q (elim (Option-cases (find run_key j db.runs)) [
          | inl n ↦ rw n refl
          | inr (r, n) ↦ rw n (rw (new_validators, new_gates, new_artifacts, q) refl)
        ])
      ])
