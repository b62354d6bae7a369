-- ===== src/Registry/Views/Keeps.antt =====
-- Every call keeps the keys of the database unique, and each row of a report with its run.
use robot_data_harness.Common.{
  ℕ, ◌≡◌, refl, sym, ◌∙◌, inl, inr, Option, none, some, List, [], ◌∷◌, String, string_eq, pair_eq,
  Option-cases,
}
use robot_data_harness.Registry.Schema.{Database, DatasetRow}
use robot_data_harness.Registry.Tables.{find, IsUnique}
use robot_data_harness.Registry.Tables.Laws.{replace-IsUnique, modify-IsUnique, insert-IsUnique}
use robot_data_harness.Registry.Records.{Platform}
use robot_data_harness.Registry.Datasets.{
  DatasetFields, dataset_key, upsert_dataset, update_dataset_last_run, set_or_add, set_dataset_row,
  new_dataset_row, set_last_run,
}
use robot_data_harness.Registry.Runs.{scan_key, run_row, QualityReport, RunFields, ScanFields}
use robot_data_harness.Registry.Service.{
  scan_row, report_fields, gate_row, create_run, record_validation_run, record_scan_job,
}
use robot_data_harness.Registry.Views.{
  Call, committed, call, run_calls, upserts, updates_last_run, creates_run, records_run,
  records_scan,
}
use robot_data_harness.Registry.Views.Rows.{
  scan_row-scan_id, iter_artifacts-run_id, validator_rows-run_id, run_row-run_id,
  create_run-replaced, record_validation_run-replaced, create_run-none, record_validation_run-none,
  gate_row-run_id,
}
use robot_data_harness.Registry.Views.Valid.{IsValid, replaced-IsValid}

module _ {F : Type 0} where
  update_dataset_last_run-IsValid :
      (now : ℕ) (dataset_id version status run_id : String) (db : Database F)
      → IsValid db
      → IsValid (update_dataset_last_run now dataset_id version status run_id db)
  unfolding update_dataset_last_run set_last_run
  update_dataset_last_run-IsValid now dataset_id version status run_id db v = record {
    datasets =
        modify-IsUnique dataset_key (dataset_id, version) (set_last_run now status run_id)
          db.datasets (λ r. refl) v.datasets;
    runs = v.runs;
    scans = v.scans;
    validator_results = v.validator_results;
    gate_results = v.gate_results;
    artifacts = v.artifacts;
  }

  set_or_add-IsUnique :
      (now : ℕ) (fields : DatasetFields F) (rows : List (DatasetRow F))
      (old : Option (DatasetRow F))
      → find dataset_key (fields.dataset_id, fields.version) rows ≡ old
      → IsUnique dataset_key rows
      → IsUnique dataset_key (set_or_add now fields rows old)
  unfolding set_dataset_row
  set_or_add-IsUnique now fields rows none h u =
      insert-IsUnique dataset_key (set_dataset_row now fields (new_dataset_row now fields)) rows h u
  set_or_add-IsUnique now fields rows (some row) h u =
      modify-IsUnique dataset_key (fields.dataset_id, fields.version) (set_dataset_row now fields)
        rows (λ r. refl) u

  upsert_dataset-IsValid :
      (now : ℕ) (fields : DatasetFields F) (db : Database F)
      → IsValid db
      → IsValid (upsert_dataset now fields db)
  unfolding upsert_dataset
  upsert_dataset-IsValid now fields db v = record {
    datasets = set_or_add-IsUnique now fields db.datasets _ refl v.datasets;
    runs = v.runs;
    scans = v.scans;
    validator_results = v.validator_results;
    gate_results = v.gate_results;
    artifacts = v.artifacts;
  }

  module _ {Json : Type 0} (platform : Platform Json) where
    create_run-IsValid :
        (fields : RunFields F Json) (db : Database F)
        → IsValid db
        → IsValid (committed db (create_run platform fields db))
    create_run-IsValid fields db v = elim (Option-cases (run_row platform fields)) [
      | inl n ↦ rw (create_run-none platform fields db n) v
      | inr (row, h) ↦
          rw (create_run-replaced platform fields row db h)
            (replaced-IsValid row [] [] [] db v tt tt tt)
    ]

    record_validation_run-IsValid :
        (now : ℕ) (report : QualityReport F Json) (version : String) (config_path : Option String)
        (output_dir : String) (db : Database F)
        → IsValid db
        → IsValid (
            committed db
              (record_validation_run platform now report version config_path output_dir db))
    unfolding report_fields
    record_validation_run-IsValid now report version config_path output_dir db v =
        let fields = report_fields report version config_path output_dir in
        elim (Option-cases (run_row platform fields)) [
          | inl n ↦
              rw
                (record_validation_run-none platform now report version config_path output_dir db n)
                v
          | inr (row, h) ↦
              let same = run_row-run_id platform fields row h in
              rw
                (record_validation_run-replaced platform now report version config_path output_dir
                  row db h)
                (update_dataset_last_run-IsValid now report.dataset_id version _ _ _ (
                  replaced-IsValid row _ (gate_row platform report ∷ []) _ db v
                    (rw same (validator_rows-run_id platform report.run_id report.validators))
                    (gate_row-run_id platform report ∙ sym same, tt)
                    (rw same (iter_artifacts-run_id platform report))))
        ]

    record_scan_job-IsValid :
        (fields : ScanFields Json) (db : Database F)
        → IsValid db
        → IsValid (committed db (record_scan_job platform fields db))
    unfolding record_scan_job
    record_scan_job-IsValid fields db v = elim (Option-cases (scan_row platform fields)) [
      | inl n ↦ rw n v
      | inr (row, h) ↦
          rw (h, sym (scan_row-scan_id platform fields row h))
            (record {
              datasets = v.datasets;
              runs = v.runs;
              scans = replace-IsUnique scan_key row db.scan_jobs v.scans;
              validator_results = v.validator_results;
              gate_results = v.gate_results;
              artifacts = v.artifacts;
            })
    ]

    pub call-IsValid :
        (c : Call F Json) (db : Database F)
        → IsValid db
        → IsValid (committed db (call platform c db))
    unfolding call
    call-IsValid (upserts now fields) db v = upsert_dataset-IsValid now fields db v
    call-IsValid (updates_last_run now dataset_id version status run_id) db v =
        update_dataset_last_run-IsValid now dataset_id version status run_id db v
    call-IsValid (creates_run fields) db v = create_run-IsValid fields db v
    call-IsValid (records_run now report version config_path output_dir) db v =
        record_validation_run-IsValid now report version config_path output_dir db v
    call-IsValid (records_scan fields) db v = record_scan_job-IsValid fields db v

    -- Any calls keep every key of the datasets, runs and scans unique, and keep a run for each row of
    -- validators, gates and artifacts.
    pub run_calls-IsValid :
        (calls : List (Call F Json)) (db : Database F)
        → IsValid db
        → IsValid (run_calls platform calls db)
    unfolding run_calls
    run_calls-IsValid [] db v = v
    run_calls-IsValid (c ∷ calls) db v =
        run_calls-IsValid calls (committed db (call platform c db)) (call-IsValid c db v)
