-- ===== src/Registry/Views/Valid.antt =====
-- What the calls keep of the database: unique keys, and no row of a report without its run.
use robot_data_harness.Common.{
  Bool, true, false, ◌≡◌, refl, inl, inr, Option, none, some, List, ◌++◌, String, string_eq,
  pair_eq, Bool-cases, All, All-append, All-map, All-select, eq_refl,
}
use robot_data_harness.Registry.Schema.{
  Database, RunRow, ValidatorResultRow, GateResultRow, ArtifactRow,
}
use robot_data_harness.Registry.Tables.{find, delete_where, IsUnique}
use robot_data_harness.Registry.Tables.Laws.{find-replace, replace-IsUnique}
use robot_data_harness.Registry.Datasets.{dataset_key}
use robot_data_harness.Registry.Runs.{run_key, scan_key}
use robot_data_harness.Registry.Views.Refines.{replaced}

abbrev pub is_some {ℓ} : {A : Type ℓ} → Option A → Bool
is_some none = false
is_some (some a) = true

abbrev pub HasRun : {F : Type 0} → Database F → String → Type 0
HasRun db run_id = is_some (find run_key run_id db.runs) ≡ true

-- Each key stands once in its table, as the unique constraints of the database ask, and each row of a
-- report belongs to a run.
pub record IsValid {F : Type 0} (db : Database F) : Type 0 where
  pub datasets : IsUnique dataset_key db.datasets
  pub runs : IsUnique run_key db.runs
  pub scans : IsUnique scan_key db.scan_jobs
  pub validator_results : All (λ r. HasRun db r.run_id) db.validator_results
  pub gate_results : All (λ r. HasRun db r.run_id) db.gate_results
  pub artifacts : All (λ r. HasRun db r.run_id) db.artifacts

module _ {F : Type 0} where
  HasRun-replaced :
      (row : RunRow F) (validators : List (ValidatorResultRow F)) (gates : List GateResultRow)
      (artifacts : List ArtifactRow) (db : Database F) (k : String)
      → IsUnique run_key db.runs
      → HasRun db k
      → HasRun (replaced row validators gates artifacts db) k
  unfolding replaced
  HasRun-replaced row validators gates artifacts db k u h =
      rw (find-replace run_key k row db.runs u)
        (elim (Bool-cases (string_eq.beq row.run_id k)) [ inl q ↦ rw q refl | inr q ↦ rw q h ])

  HasRun-new :
      (row : RunRow F) (validators : List (ValidatorResultRow F)) (gates : List GateResultRow)
      (artifacts : List ArtifactRow) (db : Database F) (k : String)
      → IsUnique run_key db.runs
      → k ≡ row.run_id
      → HasRun (replaced row validators gates artifacts db) k
  unfolding replaced
  HasRun-new row validators gates artifacts db k u h =
      rw (find-replace run_key k row db.runs u, h, eq_refl row.run_id) refl

  -- The rows of a table that stay and those that are new have their run.
  children-HasRun :
      {R : Type 0} (key : R → String) (rows new : List R) (row : RunRow F)
      (validators : List (ValidatorResultRow F)) (gates : List GateResultRow)
      (artifacts : List ArtifactRow) (db : Database F)
      → IsUnique run_key db.runs
      → All (λ r. HasRun db (key r)) rows
      → All (λ r. key r ≡ row.run_id) new
      → All
          (λ r. HasRun (replaced row validators gates artifacts db) (key r))
          (delete_where key row.run_id rows ++ new)
  unfolding delete_where
  children-HasRun key rows new row validators gates artifacts db u h hn =
      All-append _ (delete_where key row.run_id rows) new
        (All-select _ _ rows
          (All-map _ _ (λ r. HasRun-replaced row validators gates artifacts db (key r) u) rows h))
        (All-map _ _ (λ r. HasRun-new row validators gates artifacts db (key r) u) new hn)

  pub replaced-IsValid :
      (row : RunRow F) (validators : List (ValidatorResultRow F)) (gates : List GateResultRow)
      (artifacts : List ArtifactRow) (db : Database F)
      → IsValid db
      → All (λ r. r.run_id ≡ row.run_id) validators
      → All (λ r. r.run_id ≡ row.run_id) gates
      → All (λ r. r.run_id ≡ row.run_id) artifacts
      → IsValid (replaced row validators gates artifacts db)
  unfolding replaced
  replaced-IsValid row validators gates artifacts db v hv hg ha = record {
    datasets = v.datasets;
    runs = replace-IsUnique run_key row db.runs v.runs;
    scans = v.scans;
    validator_results =
        children-HasRun (λ r. r.run_id) db.validator_results validators row validators gates
          artifacts db v.runs v.validator_results hv;
    gate_results =
        children-HasRun (λ r. r.run_id) db.gate_results gates row validators gates artifacts db
          v.runs v.gate_results hg;
    artifacts =
        children-HasRun (λ r. r.run_id) db.artifacts artifacts row validators gates artifacts db
          v.runs v.artifacts ha;
  }
