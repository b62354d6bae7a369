-- ===== src/Registry/Views/Calls.antt =====
-- Any calls of the registry read as their changes of the readings, and keep the keys unique.
use robot_data_harness.Common.{
  ℕ, ◌≡◌, refl, sym, ap, ◌∙◌, inl, inr, Option, List, [], ◌∷◌, map, String, string_eq, pair_eq,
  Bool-cases, Option-cases, All, text_eq,
}
use mathlib.Core.Path.{fun_ext}
use robot_data_harness.Registry.Schema.{
  Database, RunRow, ValidatorResultRow, GateResultRow, ArtifactRow,
}
use robot_data_harness.Registry.Tables.{IsUnique}
use robot_data_harness.Registry.Tables.Laws.{find-replace}
use robot_data_harness.Registry.Records.{Platform}
use robot_data_harness.Registry.Datasets.{get_dataset}
use robot_data_harness.Registry.Runs.{
  run_key, scan_key, run_row, QualityReport, RunFields, ScanFields, iter_artifacts,
}
use robot_data_harness.Registry.Service.{
  scan_row, report_fields, validator_row, gate_row, create_run, record_validation_run,
  record_scan_job, get_run_detail, get_scan_job, run_detail,
}
use robot_data_harness.Registry.Views.{
  Call, act_creates, act_records, act_scans, bare_detail, full_detail, with_last_run, with_run,
  committed, view_of, call, run_calls, act, replay, upserts, updates_last_run, creates_run,
  records_run, records_scan,
}
use robot_data_harness.Registry.Views.Rows.{
  scan_row-scan_id, iter_artifacts-run_id, validator_rows-run_id, run_row-run_id,
  create_run-replaced, record_validation_run-replaced, create_run-none, record_validation_run-none,
  gate_row-run_id,
}
use robot_data_harness.Registry.Views.Valid.{IsValid}
use robot_data_harness.Registry.Views.Keeps.{call-IsValid}
use robot_data_harness.Registry.Views.Refines.{
  View-ext, upsert_dataset-act, update_dataset_last_run-act, replaced, detail_of,
  get_run_detail-replaced,
}

module _ {F Json : Type 0} (platform : Platform Json) where
  view_of-replaced :
      (row : RunRow F) (validators : List (ValidatorResultRow F)) (gates : List GateResultRow)
      (artifacts : List ArtifactRow) (db : Database F)
      → IsUnique run_key db.runs
      → All (λ r. r.run_id ≡ row.run_id) validators
      → All (λ r. r.run_id ≡ row.run_id) gates
      → All (λ r. r.run_id ≡ row.run_id) artifacts
      → view_of platform (replaced row validators gates artifacts db)
        ≡ with_run row.run_id
            (detail_of platform row validators gates artifacts)
            (view_of platform db)
  unfolding view_of replaced get_dataset get_scan_job
  view_of-replaced row validators gates artifacts db u hv hg ha =
      View-ext _ _ refl
        (fun_ext
          (λ j. get_run_detail-replaced platform row validators gates artifacts db u hv hg ha j))
        refl

  create_run-act :
      (fields : RunFields F Json) (db : Database F)
      → IsValid db
      → view_of platform (committed db (create_run platform fields db))
        ≡ act_creates platform fields (run_row platform fields) (view_of platform db)
  unfolding detail_of
  create_run-act fields db v = elim (Option-cases (run_row platform fields)) [
    | inl n ↦ rw (create_run-none platform fields db n, n) refl
    | inr (row, h) ↦
        let read = view_of-replaced row [] [] [] db v.runs tt tt tt in
        rw (create_run-replaced platform fields row db h, h)
          (read
            ∙ ap (λ k. with_run k (bare_detail platform row) (view_of platform db))
                (run_row-run_id platform fields row h))
  ]

  pub record_validation_run-act :
      (now : ℕ) (report : QualityReport F Json) (version : String) (config_path : Option String)
      (output_dir : String) (db : Database F)
      → IsValid db
      → view_of platform (
          committed db
            (record_validation_run platform now report version config_path output_dir db))
        ≡ act_records platform now report
            (report_fields report version config_path output_dir)
            (run_row platform (report_fields report version config_path output_dir))
            (view_of platform db)
  unfolding detail_of report_fields
  record_validation_run-act now report version config_path output_dir db v =
      let fields = report_fields report version config_path output_dir in
      elim (Option-cases (run_row platform fields)) [
        | inl n ↦
            rw
              (
                record_validation_run-none platform now report version config_path output_dir db n,
                n,
              )
              refl
        | inr (row, h) ↦
            let same = run_row-run_id platform fields row h in
            let validators = map (validator_row platform report.run_id) report.validators in
            let read =
              view_of-replaced row validators (gate_row platform report ∷ [])
                (iter_artifacts platform report) db v.runs
                (rw same (validator_rows-run_id platform report.run_id report.validators))
                (gate_row-run_id platform report ∙ sym same, tt)
                (rw same (iter_artifacts-run_id platform report)) in
            rw
              (
                record_validation_run-replaced platform now report version config_path output_dir
                    row db h,
                h,
              )
              (update_dataset_last_run-act platform now report.dataset_id version _ _ _
                ∙ ap (with_last_run platform now (report.dataset_id, version) _ _) (
                    read
                    ∙ ap (λ k. with_run k (full_detail platform report row) (view_of platform db))
                        same))
      ]

  record_scan_job-act :
      (fields : ScanFields Json) (db : Database F)
      → IsValid db
      → view_of platform (committed db (record_scan_job platform fields db))
        ≡ act_scans platform (scan_row platform fields) (view_of platform db)
  unfolding record_scan_job view_of get_dataset get_run_detail run_detail get_scan_job
  record_scan_job-act fields db v = elim (Option-cases (scan_row platform fields)) [
    | inl n ↦ rw n refl
    | inr (row, h) ↦
        rw (h, sym (scan_row-scan_id platform fields row h))
          (View-ext _ _ refl refl (
            fun_ext (λ j.
              rw (find-replace scan_key j row db.scan_jobs v.scans)
                (elim (Bool-cases (string_eq.beq row.scan_id j)) [
                  | inl q ↦ rw q refl
                  | inr q ↦ rw q refl
                ]))))
  ]

  call-act :
      (c : Call F Json) (db : Database F)
      → IsValid db
      → view_of platform (committed db (call platform c db)) ≡ act platform c (view_of platform db)
  unfolding call act
  call-act (upserts now fields) db v = upsert_dataset-act platform now fields db
  call-act (updates_last_run now dataset_id version status run_id) db v =
      update_dataset_last_run-act platform now dataset_id version status run_id db
  call-act (creates_run fields) db v = create_run-act fields db v
  call-act (records_run now report version config_path output_dir) db v =
      record_validation_run-act now report version config_path output_dir db v
  call-act (records_scan fields) db v = record_scan_job-act fields db v

  -- After any calls on a valid database (unique keys, and a run for each row of a report) each dataset,
  -- run and scan reads as the calls say when they are replayed on the readings alone: a run reads with
  -- the rows of its last report and no others, and a call that raises changes nothing.
  pub run_calls_refines :
      (calls : List (Call F Json)) (db : Database F)
      → IsValid db
      → view_of platform (run_calls platform calls db) ≡ replay platform calls (view_of platform db)
  unfolding run_calls replay
  run_calls_refines [] db v = refl
  run_calls_refines (c ∷ calls) db v =
      run_calls_refines calls (committed db (call platform c db)) (call-IsValid platform c db v)
      ∙ ap (replay platform calls) (call-act c db v)
