-- ===== src/Registry/Views/Rows.antt =====
-- The rows that a call writes carry the id of its run, and take the place of those that had it.
use robot_data_harness.Common.{
  ℕ, ◌≡◌, refl, Option, none, some, List, [], ◌∷◌, ◌++◌, map, String, Text, Dict, string_eq,
  pair_eq, All, All-append, arith, codes, text_eq,
}
use mathlib.Core.List.{append-nil}
use robot_data_harness.Registry.Schema.{Database, RunRow, ValidatorResultRow, ScanJobRow}
use robot_data_harness.Registry.Records.{Platform}
use robot_data_harness.Registry.Datasets.{update_dataset_last_run}
use robot_data_harness.Registry.Runs.{
  run_row, run_status, QualityReport, ValidationResult, RunFields, ScanFields, create_run_row,
  add_run, delete_run_related, artifact_of, plot_artifacts, iter_artifacts,
}
use robot_data_harness.Registry.Service.{
  scan_row, report_fields, validator_row, gate_row, add_report, create_run, record_validation_run,
}
use robot_data_harness.Registry.Views.Refines.{replaced}

module _ {Json : Type 0} (platform : Platform Json) where
  artifact_of-run_id :
      (run_id : String) (artifact_type : Text) (uri path : Option Text)
      → All (λ r. r.run_id ≡ run_id) (artifact_of platform run_id artifact_type uri path)
  unfolding artifact_of
  artifact_of-run_id run_id t none path = tt
  artifact_of-run_id run_id t (some []) path = tt
  artifact_of-run_id run_id t (some (c ∷ u)) path = (refl, tt)

  plot_artifacts-run_id :
      (run_id : String) (plots : Dict Text Text)
      → All (λ r. r.run_id ≡ run_id) (plot_artifacts platform run_id plots)
  unfolding plot_artifacts
  plot_artifacts-run_id run_id [] = tt
  plot_artifacts-run_id run_id ((name, uri) ∷ plots) =
      All-append _ (artifact_of platform run_id (codes "plot:" ++ name) (some uri) none) _
        (artifact_of-run_id run_id _ (some uri) none) (plot_artifacts-run_id run_id plots)

  pub scan_row-scan_id :
      (fields : ScanFields Json) (row : ScanJobRow)
      → scan_row platform fields ≡ some row
      → row.scan_id ≡ fields.scan_id
  unfolding scan_row
  scan_row-scan_id fields row h = ground (arith, h)

  module _ {F : Type 0} where
    pub iter_artifacts-run_id :
        (report : QualityReport F Json)
        → All (λ r. r.run_id ≡ report.run_id) (iter_artifacts platform report)
    unfolding iter_artifacts
    iter_artifacts-run_id report =
        let step = artifact_of-run_id report.run_id in
        All-append _ (artifact_of platform report.run_id _ _ _) _ (step _ _ _) (
          All-append _ (artifact_of platform report.run_id _ _ _) _ (step _ _ _) (
            All-append _ (artifact_of platform report.run_id _ _ _) _ (step _ _ _)
              (plot_artifacts-run_id report.run_id _)))

    pub validator_rows-run_id :
        (run_id : String) (validators : List (ValidationResult F Json))
        → All
            (λ (r : ValidatorResultRow F). r.run_id ≡ run_id)
            (map (validator_row platform run_id) validators)
    unfolding validator_row
    validator_rows-run_id run_id [] = tt
    validator_rows-run_id run_id (v ∷ vs) = (refl, validator_rows-run_id run_id vs)

    pub run_row-run_id :
        (fields : RunFields F Json) (row : RunRow F)
        → run_row platform fields ≡ some row
        → row.run_id ≡ fields.run_id
    unfolding run_row
    run_row-run_id fields row h = ground (arith, h)

    pub create_run-replaced :
        (fields : RunFields F Json) (row : RunRow F) (db : Database F)
        → run_row platform fields ≡ some row
        → create_run platform fields db ≡ some (replaced row [] [] [] db)
    unfolding create_run create_run_row add_run delete_run_related replaced
    create_run-replaced fields row db h =
        rw (h, append-nil _, append-nil _, append-nil _) (rw (run_row-run_id fields row h) refl)

    pub record_validation_run-replaced :
        (now : ℕ) (report : QualityReport F Json) (version : String) (config_path : Option String)
        (output_dir : String) (row : RunRow F) (db : Database F)
        → run_row platform (report_fields report version config_path output_dir) ≡ some row
        → record_validation_run platform now report version config_path output_dir db
          ≡ some (
              update_dataset_last_run now report.dataset_id version
                (run_status report.status report.gate.status)
                report.run_id
                (replaced row
                  (map (validator_row platform report.run_id) report.validators)
                  (gate_row platform report ∷ [])
                  (iter_artifacts platform report)
                  db))
    unfolding record_validation_run create_run_row add_run delete_run_related replaced add_report
        update_dataset_last_run report_fields
    record_validation_run-replaced now report version config_path output_dir row db h =
        rw h (rw (run_row-run_id (report_fields report version config_path output_dir) row h) refl)

    pub create_run-none :
        (fields : RunFields F Json) (db : Database F)
        → run_row platform fields ≡ none
        → create_run platform fields db ≡ none
    unfolding create_run create_run_row
    create_run-none fields db h = rw h refl

    pub record_validation_run-none :
        (now : ℕ) (report : QualityReport F Json) (version : String) (config_path : Option String)
        (output_dir : String) (db : Database F)
        → run_row platform (report_fields report version config_path output_dir) ≡ none
        → record_validation_run platform now report version config_path output_dir db ≡ none
    unfolding record_validation_run create_run_row
    record_validation_run-none now report version config_path output_dir db h = rw h refl

    pub gate_row-run_id :
        (report : QualityReport F Json) → (gate_row platform report).run_id ≡ report.run_id
    unfolding gate_row
    gate_row-run_id report = refl
