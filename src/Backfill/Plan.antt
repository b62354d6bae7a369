-- ===== src/Backfill/Plan.antt =====
-- `BackfillPlanner.plan`, `_recommend_command` and `_persist_plan`. `str.upper`, `str.lower` and the
-- format of dates are arguments. A recommended command is the list of its words, since `shlex.quote`
-- of an argument is undone by the `shlex.split` before it is run.
pub mod Outcome
use robot_data_harness.Common.{
  ℕ, zero, suc, ◌+◌, Bool, true, false, not, ◌&&◌, ◌||◌, Option, none, some, List, [], ◌∷◌, ◌++◌,
  map, length, Text, text_beq, codes, if◌then◌else◌, ◌>>=◌, String, any,
}
use robot_data_harness.Backfill.Keys.{Key, sorted_keys}
use robot_data_harness.Backfill.Candidates.{
  DateRange, date_range, Tables, PlanRequest, collect_candidates, option_or, text_member,
}

pub record BackfillTask : Type 0 where
  pub task_id : Text
  pub plan_id : Text
  pub dataset_id : Text
  pub version : Text
  pub dataset_family : Option Text
  pub dt : ℕ
  pub phase : Text
  pub recommended_command : List Text

-- A row of backfill_tasks.
pub record TaskRow : Type 0 where
  pub task : BackfillTask
  pub status : String
  pub attempts : ℕ
  pub last_error : Option Text

pub data PlanStatus : Type 0 where
  planned persisted : PlanStatus

pub data Warning : Type 0 where
  dry_run_only tables_missing : Warning

pub record BackfillPlanResult : Type 0 where
  pub plan_id : Text
  pub window : DateRange
  pub status : PlanStatus
  pub tasks : List BackfillTask
  pub warnings : List Warning

pub known_stages : List Text
known_stages =
    codes "normalize"
    ∷ codes "etl"
    ∷ codes "build_features"
    ∷ codes "build_ads"
    ∷ codes "ml_ready"
    ∷ codes "qc"
    ∷ codes "workflow"
    ∷ codes "sla"
    ∷ []

module _ (upper lower : Text → Text) (iso : ℕ → Text) where
  pub stage_of : Text → Text
  unfolding known_stages
  stage_of phase =
      let ph = lower (option_or (some phase) (codes "normalize")) in
      if text_member ph known_stages
      then if text_beq ph (codes "workflow") then codes "etl" else ph
      else codes "normalize"

  pub recommend_command : (dataset_id version phase : Text) → List Text
  unfolding stage_of
  recommend_command ds ver phase =
      let stage = stage_of phase in
      let names = codes "--dataset-id" ∷ ds ∷ codes "--version" ∷ ver ∷ [] in
      if text_beq stage (codes "qc")
      then codes "robot-dh" ∷ codes "qc" ∷ codes "contract" ∷ codes "run" ∷ names
        ++ codes "--resume" ∷ []
      else if text_beq stage (codes "ml_ready")
      then codes "robot-dh" ∷ codes "ml-ready" ∷ codes "export" ∷ names
      else if text_beq stage (codes "sla")
      then codes "robot-dh"
        ∷ codes "sla"
        ∷ codes "check"
        ∷ codes "--policy"
        ∷ codes "configs/sla_policies.yaml"
        ∷ []
      else codes "robot-dh" ∷ codes "etl" ∷ codes "run" ∷ names
        ++ codes "--phase" ∷ stage ∷ codes "--resume" ∷ []

  pub task_of : (plan_id : Text) → Key → BackfillTask
  unfolding recommend_command
  task_of plan_id key =
      let sep = codes "::" in
      record {
        task_id =
            plan_id
            ++ sep
            ++ key.dataset_id
            ++ sep
            ++ key.version
            ++ sep
            ++ key.phase
            ++ sep
            ++ iso key.dt;
        plan_id = plan_id;
        dataset_id = key.dataset_id;
        version = key.version;
        dataset_family = key.family;
        dt = key.dt;
        phase = key.phase;
        recommended_command = recommend_command key.dataset_id key.version key.phase;
      }

  -- The UPSERT of a task by its id: a row that is there keeps its attempts and its last error.
  pub upsert : BackfillTask → List TaskRow → List TaskRow
  upsert t [] = record { task = t; status = "PLANNED"; attempts = 0; last_error = none } ∷ []
  upsert t (row ∷ rows) =
      if text_beq row.task.task_id t.task_id
      then (record row { task = t; status = "PLANNED" }) ∷ rows
      else row ∷ upsert t rows

  pub persist : Tables → List BackfillTask → List TaskRow → List TaskRow
  unfolding upsert
  persist tables [] rows = rows
  persist tables (t ∷ tasks) rows =
      if tables.backfill_tables then persist tables tasks (upsert t rows) else rows

  -- The plan and the rows of backfill_tasks after it; `none` is the ValueError of the window or the
  -- TypeError of `sorted`.
  unfoldable pub plan :
      (plan_id : Text)
      → PlanRequest
      → Tables
      → List TaskRow
      → Option (BackfillPlanResult × List TaskRow)
  unfolding date_range collect_candidates sorted_keys task_of persist
  plan plan_id request tables rows = do
    window ← date_range request.from_date request.to_date
    keys ← sorted_keys (collect_candidates upper request window tables)
    let tasks = map (task_of plan_id) keys
    let result : BackfillPlanResult = record {
      plan_id = plan_id;
      window = window;
      status = if request.dry_run then planned else persisted;
      tasks = tasks;
      warnings =
          if request.dry_run
          then dry_run_only ∷ []
          else if tables.backfill_tables
          then []
          else tables_missing ∷ [];
    }
    some (result, if request.dry_run then rows else persist tables tasks rows)
