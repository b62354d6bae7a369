-- ===== src/Backfill/Samples.antt =====
-- Concrete plans and runs.
use mathlib.Core.List.{Perm}
use robot_data_harness.Common.{
  ℕ, ◌+◌, ◌≡◌, refl, true, false, Option, none, some, List, [], ◌∷◌, map, Text, codes, String,
  string_eq, if◌then◌else◌, All, arith, eqb, ◌-◌, leb, ◌&&◌,
}
use robot_data_harness.Backfill.Keys.{Key, sorted_keys}
use robot_data_harness.Backfill.Keys.Sorting.{Agreeing}
use robot_data_harness.Backfill.Candidates.{FactRow, Tables, PlanRequest, collect_candidates}
use robot_data_harness.Backfill.Candidates.Queries.{IsRequested, collect_candidates-IsRequested}
use robot_data_harness.Backfill.Candidates.Coverage.{holds}
use robot_data_harness.Backfill.Candidates.Wanted.{runs, IsWanted, collect_candidates-covers}
use robot_data_harness.Backfill.Plan.{
  TaskRow, BackfillPlanResult, persisted, tables_missing, task_of, plan,
}
use robot_data_harness.Backfill.Plan.Outcome.{window_of, plan-returns}
use robot_data_harness.Backfill.Run.{
  Process, finished, raised, uncaught, code, RunState, RunOutcome, returned, interrupted, run,
  tasks_of,
}
use robot_data_harness.Backfill.Run.Counts.{total_of, is_uncaught, run-keeps, run-print_only}
use robot_data_harness.Backfill.Run.Settled.{IsReported, Leaves, run-status_buckets}

-- Letters of the Latin alphabet; other characters stay.
abbrev up : Text → Text
up = map (λ c. if leb b'a' c && leb c b'z' then c - 32 else c)

abbrev down : Text → Text
down = map (λ c. if leb b'A' c && leb c b'Z' then c + 32 else c)

abbrev day : ℕ → Text
day d = (b'0' + d) ∷ []

abbrev failed_run : FactRow
failed_run = record {
  dt = some 3;
  dataset_id = some (codes "droid");
  version = some (codes "v1");
  phase = some (codes "normalize");
  status = some (codes "failed");
  dataset_family = some (codes "arm");
}

abbrev tables : Tables
tables = record {
  fact_etl_run = some (failed_run ∷ []);
  fact_workflow_step = none;
  ads_quality_dashboard = none;
  sla_checks = some (failed_run ∷ []);
  backfill_tables = false;
}

abbrev request : PlanRequest
request = record {
  from_date = 1;
  to_date = 5;
  dataset_id = some (codes "droid");
  version = none;
  phase = none;
  status_filter = [];
  dry_run = false;
}

agreeing : Agreeing (collect_candidates up request (window_of request) tables)
unfolding collect_candidates
agreeing = (refl, (refl, tt))

-- With `--phase normalize` the failed run and its failed check give keys of one run, the first with a
-- family and the second without: they cannot be sorted.
phase_clash :
    sorted_keys (
      collect_candidates up
        (record request { phase = some (codes "normalize") })
        (window_of request)
        tables)
    ≡ none
unfolding sorted_keys collect_candidates
phase_clash = refl

plan-returns_example :
    (result : BackfillPlanResult) × (rows' : List TaskRow) × (keys : List Key) × (plan up down day
        (codes "p")
        request
        tables
        []
      ≡ some (result, rows'))
    × Perm keys (collect_candidates up request (window_of request) tables)
    × (result.tasks ≡ map (task_of up down day (codes "p")) keys)
    × (result.status ≡ persisted)
    × (result.warnings ≡ tables_missing ∷ [])
    × (rows' ≡ [])
plan-returns_example = plan-returns up down day (codes "p") request tables [] (omega arith) agreeing

collect_candidates-IsRequested_example :
    All
      (IsRequested up request (window_of request))
      (collect_candidates up request (window_of request) tables)
collect_candidates-IsRequested_example =
    collect_candidates-IsRequested up request (window_of request) tables (omega arith)

failed_run-IsWanted :
    IsWanted up request (window_of request) runs failed_run 3 (codes "droid") (codes "v1")
failed_run-IsWanted = record {
  dated = refl;
  starts = omega arith;
  ends = omega arith;
  dataset = refl;
  version = refl;
  dataset_named = refl;
  version_named = refl;
  dataset_asked = refl;
  version_asked = refl;
  phase_asked = refl;
  status_asked = refl;
}

collect_candidates-covers_example :
    holds (collect_candidates up request (window_of request) tables) (record {
      dt = 3;
      dataset_id = codes "droid";
      version = codes "v1";
      phase = codes "normalize";
      family = some (codes "arm");
    })
    ≡ true
collect_candidates-covers_example =
    collect_candidates-covers up request (window_of request) tables runs [] failed_run [] 3
      (codes "droid") (codes "v1") refl failed_run-IsWanted

abbrev task : String → List Text → TaskRow
task id command = record {
  task = record {
    task_id = codes id;
    plan_id = codes "p";
    dataset_id = codes "droid";
    version = codes "v1";
    dataset_family = none;
    dt = 3;
    phase = codes "normalize";
    recommended_command = command;
  };
  status = "PLANNED";
  attempts = 0;
  last_error = none;
}

abbrev two_tasks : List TaskRow
two_tasks = task "a" (codes "run" ∷ []) ∷ task "b" (codes "run" ∷ []) ∷ []

-- The first process ends well, the others time out.
abbrev processes : ℕ → List Text → Process
processes call cmd = if eqb call 0 then finished (code 0) [] [] else raised (codes "timeout")

processes-caught : (call : ℕ) (cmd : List Text) → is_uncaught (processes call cmd) ≡ false
processes-caught call cmd = ground arith

run-keeps_example :
    (s : RunState) × (run processes true false (codes "p") (some two_tasks) ≡ some (returned s))
    × (total_of s ≡ 2)
    × (map (λ t. t.task) s.rows ≡ map (λ t. t.task) two_tasks)
    × (map (λ t. t.attempts) s.rows ≡ 1 ∷ 1 ∷ [])
    × (map (λ o. o.task_id) s.outputs ≡ codes "a" ∷ codes "b" ∷ [])
unfolding tasks_of
run-keeps_example = run-keeps processes false processes-caught true (codes "p") two_tasks

-- The second process writes bytes that are not UTF-8.
abbrev binary_output : ℕ → List Text → Process
binary_output call cmd =
    if eqb call 0 then finished (code 0) [] [] else uncaught (codes "UnicodeDecodeError")

run-status_buckets_example :
    (o : RunOutcome) × (run binary_output true false (codes "p") (some two_tasks) ≡ some o)
    × Leaves binary_output false IsReported [] two_tasks o
unfolding tasks_of
run-status_buckets_example = run-status_buckets binary_output false (codes "p") two_tasks

-- The statuses that such a run leaves.
abbrev statuses_left : Option RunOutcome → List String
statuses_left none = []
statuses_left (some (returned s)) = []
statuses_left (some (interrupted err s)) = map (λ t. t.status) s.rows

left_running :
    statuses_left (run binary_output true false (codes "p") (some two_tasks))
    ≡ "SUCCEEDED" ∷ "RUNNING" ∷ []
unfolding run tasks_of
left_running = refl

run-print_only_example :
    (s : RunState) × (run processes false false (codes "p") (some two_tasks) ≡ some (returned s))
    × (s.rows ≡ two_tasks)
    × (s.commits ≡ [])
    × (s.skipped ≡ 2)
    × (map (λ o. o.command) s.outputs ≡ (codes "run" ∷ []) ∷ (codes "run" ∷ []) ∷ [])
unfolding tasks_of
run-print_only_example = run-print_only processes false (codes "p") two_tasks
