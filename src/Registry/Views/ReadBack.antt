-- ===== src/Registry/Views/ReadBack.antt =====
-- A recorded report read back.
use robot_data_harness.Common.{
  ℕ, ◌≡◌, refl, ap, ◌∙◌, inl, inr, Bool, false, ◌||◌, Option, none, some, List, [], ◌∷◌, map,
  length, String, string_eq, eq_refl, ◌==◌, eq_iff, if◌then◌else◌, Bool-cases, arith,
}
use robot_data_harness.Registry.Schema.{Database, RunRow}
use robot_data_harness.Registry.Records.{
  Platform, RunDetailRecord, ValidatorResultRecord, run_record, validator_result_record,
}
use robot_data_harness.Registry.Runs.{
  run_row, run_status, QualityReport, ValidationResult, RunFields,
}
use robot_data_harness.Registry.Service.{
  report_fields, validator_row, record_validation_run, get_run_detail,
}
use robot_data_harness.Registry.Views.Rows.{record_validation_run-replaced}
use robot_data_harness.Registry.Views.Valid.{IsValid}
use robot_data_harness.Registry.Views.Calls.{record_validation_run-act}
use robot_data_harness.Registry.Views.{full_detail, view_of}

-- The validator's entry that a record describes.
abbrev pub validation_of :
    {F Json : Type 0} → ValidatorResultRecord F Json → ValidationResult F Json
validation_of r = record {
  name = r.validator_name;
  status = r.status;
  duration_ms = r.duration_ms;
  metrics = r.metrics_json;
  messages = r.messages_json;
}

abbrev pub gate_says : String → Option String → Bool
gate_says verdict none = false
gate_says verdict (some gate_status) = gate_status == verdict

-- FAIL when the report or its gate says so, else WARN when the gate warns, else the report's own.
abbrev pub worse_status : (report_status : String) → (gate_status : Option String) → String
worse_status status gate =
    if status == "FAIL" || gate_says "FAIL" gate
    then "FAIL"
    else if gate_says "WARN" gate
    then "WARN"
    else status

run_status-worse_status :
    (status : String) (gate : Option String) → run_status status gate ≡ worse_status status gate
unfolding run_status
run_status-worse_status status none = elim (Bool-cases (status == "FAIL")) [
  | inl e ↦ rw e ((eq_iff status "FAIL").0 e)
  | inr e ↦ rw e refl
]
run_status-worse_status status (some gate) = elim (Bool-cases (gate == "FAIL")) [
  | inl g ↦ elim (Bool-cases (status == "FAIL")) [ inl e ↦ rw (g, e) refl | inr e ↦ rw (g, e) refl ]
  | inr g ↦ elim (Bool-cases (gate == "WARN")) [
    | inl w ↦ elim (Bool-cases (status == "FAIL")) [
      | inl e ↦ rw (g, w, e) ((eq_iff status "FAIL").0 e)
      | inr e ↦ rw (g, w, e) refl
    ]
    | inr w ↦ elim (Bool-cases (status == "FAIL")) [
      | inl e ↦ rw (g, w, e) ((eq_iff status "FAIL").0 e)
      | inr e ↦ rw (g, w, e) refl
    ]
  ]
]

module _ {Json : Type 0} (platform : Platform Json) where
  -- The decoder reads what the encoder wrote.
  abbrev pub ReadsBack : Type 0
  ReadsBack = (value : Json) → platform.json_loads (platform.json_dumps value) ≡ value

  module _ {F : Type 0} where
    validators-ReadsBack :
        (run_id : String) (validators : List (ValidationResult F Json))
        → ReadsBack
        → map validation_of (
            map (validator_result_record platform) (map (validator_row platform run_id) validators))
          ≡ validators
    unfolding validator_result_record validator_row
    validators-ReadsBack run_id [] h = refl
    validators-ReadsBack run_id (v ∷ vs) h =
        rw (h v.metrics, h v.messages) (ap (◌∷◌ v) (validators-ReadsBack run_id vs h))

    run_row-ReadsBack :
        (fields : RunFields F Json) (row : RunRow F)
        → ReadsBack
        → run_row platform fields ≡ some row
        → ((run_record platform row).status ≡ fields.status)
          × ((run_record platform row).metrics_json ≡ fields.metrics)
          × ((run_record platform row).errors_json ≡ fields.errors)
          × ((run_record platform row).warnings_json ≡ fields.warnings)
    unfolding run_row run_record
    run_row-ReadsBack fields row h r =
        let m : row.metrics_json ≡ platform.json_dumps fields.metrics = ground (arith, r) in
        let e : row.errors_json ≡ platform.json_dumps fields.errors = ground (arith, r) in
        let w : row.warnings_json ≡ platform.json_dumps fields.warnings = ground (arith, r) in
        (
          ground (arith, r),
          ap platform.json_loads m ∙ h fields.metrics,
          ap platform.json_loads e ∙ h fields.errors,
          ap platform.json_loads w ∙ h fields.warnings,
        )

    run_row-returns :
        (fields : RunFields F Json) (started_at finished_at : ℕ)
        → platform.fromisoformat fields.started_at ≡ some started_at
        → platform.fromisoformat fields.finished_at ≡ some finished_at
        → (row : RunRow F) × (run_row platform fields ≡ some row)
    unfolding run_row
    run_row-returns fields started_at finished_at h k = rw (h, k) (_, refl)

    recorded-detail :
        (now : ℕ) (report : QualityReport F Json) (version : String) (config_path : Option String)
        (output_dir : String) (row : RunRow F) (db db' : Database F)
        → IsValid db
        → run_row platform (report_fields report version config_path output_dir) ≡ some row
        → record_validation_run platform now report version config_path output_dir db ≡ some db'
        → get_run_detail platform report.run_id db' ≡ some (full_detail platform report row)
    unfolding report_fields view_of
    recorded-detail now report version config_path output_dir row db db' v r h =
        let acted =
          record_validation_run-act platform now report version config_path output_dir db v in
        ap (λ w. w.run report.run_id) (rw (h, r) at acted) ∙ rw (eq_refl report.run_id) refl

    -- A report whose two dates are dates is recorded on a valid database and reads back under
    -- its run's id, when the JSON decoder reads what the encoder wrote: as its status FAIL if the report
    -- or the gate says FAIL, else WARN if the gate says WARN, else the report's; the metrics, errors
    -- and warnings, all validators in order, and one gate result.
    pub get_run_detail-record_validation_run :
        (now : ℕ) (report : QualityReport F Json) (version : String) (config_path : Option String)
        (output_dir : String) (db : Database F) (started_at finished_at : ℕ)
        → ReadsBack
        → IsValid db
        → platform.fromisoformat report.started_at ≡ some started_at
        → platform.fromisoformat report.finished_at ≡ some finished_at
        → (db' : Database F) × (detail : RunDetailRecord F Json) × (record_validation_run platform
              now report version config_path output_dir db
            ≡ some db')
          × (get_run_detail platform report.run_id db' ≡ some detail)
          × (detail.run.status ≡ worse_status report.status report.gate.status)
          × (detail.run.metrics_json ≡ report.metrics)
          × (detail.run.errors_json ≡ report.errors)
          × (detail.run.warnings_json ≡ report.warnings)
          × (map validation_of detail.validator_results ≡ report.validators)
          × (length detail.gate_results ≡ 1)
    unfolding report_fields
    get_run_detail-record_validation_run now report version config_path output_dir db s f loads v hs
          hf =
        let fields = report_fields report version config_path output_dir in
        let (row, r) = run_row-returns fields s f hs hf in
        let done =
          record_validation_run-replaced platform now report version config_path output_dir row db
            r in
        let read = run_row-ReadsBack fields row loads r in
        (
          _,
          full_detail platform report row,
          done,
          recorded-detail now report version config_path output_dir row db _ v r done,
          read.0 ∙ run_status-worse_status report.status report.gate.status,
          read.1,
          read.2,
          read.3,
          validators-ReadsBack report.run_id report.validators loads,
          refl,
        )
