-- ===== src/Sharding/Runner.antt =====
-- src/robot_dh/sharding/shard_runner.py: the run of one dataset and of one shard. What `etl_run` does
-- to a dataset, under the root of the lake that is in force, is an argument, so `lake_root` is left out;
-- the clock and the order in which the futures of the thread pool complete are arguments too. Events,
-- rows of the warehouse and files written are a list of effects.
pub mod Counts
pub mod Verdict
use robot_data_harness.Common.{
  ℕ, suc, ◌+◌, ◌-◌, String, append, Bool, true, false, ◌&&◌, ◌||◌, Option, none, some, List, [],
  ◌∷◌, ◌++◌, length, leb, ltb, one_of, if◌then◌else◌, ◌==◌, map,
}
use robot_data_harness.Sharding.Model.{
  PlanDataset, PlanShard, EtlPlan, ShardKey, index, name, get_shard, decimal,
}
use robot_data_harness.Sharding.Perf.{EtlRunResult, PerfRecord, dataset_phase_perf}

-- What `etl_run` does: it returns a result, or raises.
pub data EtlOutcome : Type 0 where
  returned : EtlRunResult → EtlOutcome
  raised : String → EtlOutcome

pub record DatasetRun : Type 0 where
  pub dataset_id : String
  pub version : String
  pub dataset_uri : String
  pub status : String
  pub duration_sec : ℕ
  pub error_message : Option String
  pub etl_result : Option EtlRunResult

pub record ShardSummary : Type 0 where
  pub plan_id : String
  pub shard_id : String
  -- `none` stands for -1
  pub shard_index : Option ℕ
  pub status : String
  pub total : ℕ
  pub succeeded : ℕ
  pub failed : ℕ
  pub skipped : ℕ
  pub duration_sec : ℕ
  pub started_at : String
  pub finished_at : String
  pub runs : List DatasetRun
  pub summary_uri : Option String

pub data Effect : Type 0 where
  dataset_etl_started : (job_id : String) → Effect
  perf_recorded : PerfRecord → Effect
  dataset_etl_finished : (job_id status : String) → Effect
  etl_shard_started : (shard_id : String) (dataset_count : ℕ) → Effect
  shard_running : (shard_id : String) (dataset_count : ℕ) → Effect
  shard_recorded : (shard_id status : String) (succeeded failed skipped : ℕ) → Effect
  etl_shard_finished : (shard_id status : String) (total succeeded failed skipped : ℕ) → Effect
  summary_written : (uri : String) → Effect

pub status_of : EtlOutcome → String
status_of (returned r) = r.status
status_of (raised e) = "FAIL"

error_of : EtlOutcome → Option String
error_of (returned r) = r.error
error_of (raised e) = some e

result_of : EtlOutcome → Option EtlRunResult
result_of (returned r) = some r
result_of (raised e) = none

-- What the runner does not implement.
pub record RunWorld : Type 0 where
  pub etl_run : PlanDataset → EtlOutcome
  pub seconds : PlanDataset → ℕ
  pub now : String
  pub elapsed : ℕ

module _ (world : RunWorld) (plan : EtlPlan) (shard : PlanShard) where
  abbrev job_id_of : PlanDataset → String
  job_id_of d = append shard.shard_id (append "::" (append d.dataset_id (append "-" d.version)))

  pub run_one_dataset : PlanDataset → DatasetRun
  unfolding status_of error_of result_of
  run_one_dataset d = record {
    dataset_id = d.dataset_id;
    version = d.version;
    dataset_uri = d.dataset_uri;
    status = status_of (world.etl_run d);
    duration_sec = world.seconds d;
    error_message = error_of (world.etl_run d);
    etl_result = result_of (world.etl_run d);
  }

  pub run_one_dataset_effects : PlanDataset → List Effect
  unfolding status_of error_of result_of dataset_phase_perf
  run_one_dataset_effects d =
      dataset_etl_started (job_id_of d)
      ∷ (map perf_recorded (
            dataset_phase_perf plan.plan_id shard d (result_of (world.etl_run d))
              (error_of (world.etl_run d)) (world.seconds d))
          ++ dataset_etl_finished (job_id_of d) (status_of (world.etl_run d)) ∷ [])

-- The counters of the loop.
pub record Tally : Type 0 where
  pub succeeded : ℕ
  pub failed : ℕ
  pub skipped : ℕ
  pub runs : List DatasetRun

pub is_success : String → Bool
is_success status = one_of status ("OK" ∷ "WARN" ∷ [])

pub empty_tally : Tally
empty_tally = record { succeeded = 0; failed = 0; skipped = 0; runs = [] }

abbrev pub succeed : DatasetRun → Tally → Tally
succeed run t = record t { succeeded = t.succeeded + 1; runs = t.runs ++ run ∷ [] }

abbrev pub skip : DatasetRun → Tally → Tally
skip run t = record t { skipped = t.skipped + 1; runs = t.runs ++ run ∷ [] }

abbrev pub fail : DatasetRun → Tally → Tally
fail run t = record t { failed = t.failed + 1; runs = t.runs ++ run ∷ [] }

-- The loop over the runs, in the order in which they end, with the `break` of `fail_fast`.
pub tally : Bool → List DatasetRun → Tally → Tally
unfolding is_success
tally fail_fast [] t = t
tally fail_fast (run ∷ rest) t =
    let ok = tally fail_fast rest (succeed run t) in
    let skipping = tally fail_fast rest (skip run t) in
    let go_on = tally fail_fast rest (fail run t) in
    if is_success run.status
    then ok
    else if run.status == "SKIPPED"
    then skipping
    else if fail_fast
    then fail run t
    else go_on

pub final_status : (dataset_count succeeded failed : ℕ) → String
final_status n succeeded failed =
    if ltb 0 failed && (leb succeeded 0 && ltb 0 n)
    then "FAIL"
    else if ltb 0 failed
    then "WARN"
    else "OK"

-- A shard number that is given as a text.
pub data ShardArgument : Type 0 where
  number : ℕ → ShardArgument
  digits : ℕ → ShardArgument
  text : String → ShardArgument

-- _resolve_shard: a text of digits is read as a number.
pub resolve_shard : EtlPlan → ShardArgument → Option PlanShard
unfolding get_shard
resolve_shard plan (number i) = get_shard plan (index i)
resolve_shard plan (digits i) = get_shard plan (index i)
resolve_shard plan (text k) = get_shard plan (name k)

argument_text : ShardArgument → String
unfolding decimal
argument_text (number i) = decimal i
argument_text (digits i) = decimal i
argument_text (text k) = k

argument_index : ShardArgument → Option ℕ
argument_index (number i) = some i
argument_index (digits i) = some i
argument_index (text k) = none

-- The shard is not in the plan.
pub skipped_summary : EtlPlan → ShardArgument → (now : String) → Option String → ShardSummary
unfolding argument_text argument_index
skipped_summary plan key now output = record {
  plan_id = plan.plan_id;
  shard_id = argument_text key;
  shard_index = argument_index key;
  status = "SKIPPED";
  total = 0;
  succeeded = 0;
  failed = 0;
  skipped = 0;
  duration_sec = 0;
  started_at = now;
  finished_at = now;
  runs = [];
  summary_uri = output;
}

pub record ShardOptions : Type 0 where
  pub max_workers : ℕ
  pub fail_fast : Bool
  pub output_summary_uri : Option String
  pub local_summary : String

abbrev or_local : ShardOptions → String
or_local o = elim o.output_summary_uri [ none ↦ o.local_summary | some uri ↦ uri ]

abbrev remote_write : Option String → List Effect
remote_write none = []
remote_write (some uri) = summary_written uri ∷ []

-- The order in which the loop sees the datasets: the shard's own, or that of `as_completed`.
pub visit_order : ShardOptions → PlanShard → (completion : List PlanDataset) → List PlanDataset
visit_order o shard completion =
    if leb o.max_workers 1 || leb (length shard.datasets) 1 then shard.datasets else completion

-- The run of a shard of the plan.
unfoldable pub run_found :
    RunWorld → ShardOptions → EtlPlan → PlanShard → List PlanDataset → ShardSummary
unfolding tally empty_tally visit_order run_one_dataset final_status
run_found world o plan shard completion =
    let t =
      tally o.fail_fast (map (run_one_dataset world plan shard) (visit_order o shard completion))
        empty_tally in
    record {
      plan_id = plan.plan_id;
      shard_id = shard.shard_id;
      shard_index = some shard.shard_index;
      status = final_status (length shard.datasets) t.succeeded t.failed;
      total = length shard.datasets;
      succeeded = t.succeeded;
      failed = t.failed;
      skipped = t.skipped;
      duration_sec = world.elapsed;
      started_at = world.now;
      finished_at = world.now;
      runs = t.runs;
      summary_uri = some (or_local o);
    }

-- `completion` is the order in which the pool's futures complete.
unfoldable pub run_shard :
    RunWorld → ShardOptions → EtlPlan → ShardArgument → List PlanDataset → ShardSummary
unfolding resolve_shard skipped_summary run_found
run_shard world o plan key completion = elim (resolve_shard plan key) [
  | none ↦ skipped_summary plan key world.now o.output_summary_uri
  | some shard ↦ run_found world o plan shard completion
]

-- What `run_found` records about the shard itself, in this order, a file being written before `summary_uri`
-- is set in the summary; the effects of the datasets come
-- between the first two and the rest.
pub shard_effects : ShardOptions → PlanShard → (between : List Effect) → ShardSummary → List Effect
shard_effects o shard between s =
    etl_shard_started shard.shard_id (length shard.datasets)
    ∷ shard_running shard.shard_id (length shard.datasets)
    ∷ (between
        ++ summary_written o.local_summary
          ∷ (remote_write o.output_summary_uri
              ++ shard_recorded shard.shard_id s.status s.succeeded s.failed s.skipped
                ∷ etl_shard_finished shard.shard_id s.status s.total s.succeeded s.failed s.skipped
                ∷ []))
