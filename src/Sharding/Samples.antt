-- ===== src/Sharding/Samples.antt =====
-- Runs of the sharded ETL on small inputs, and its theorems at them.
use mathlib.Core.List.{Perm}
use mathlib.Core.List.Perm
use robot_data_harness.Common.{
  count_if, ℕ, ◌≡◌, refl, ◌≤◌, ◌<◌, ◌↔◌, ◌⊎◌, String, Bool, true, false, none, some, List, [], ◌∷◌,
  arith, length, All, sum_of, sorted_desc, ◌+◌, ◌==◌,
}
use robot_data_harness.Sharding.Model.{PlanDataset, PlanShard, EtlPlan, new_shard_id}
use robot_data_harness.Sharding.Planner.{pack_into_shards}
use robot_data_harness.Sharding.Planner.Bounds.{FitsTarget, pack-FitsTarget, pack-length}
use robot_data_harness.Sharding.Planner.Contents.{held, pack-perm}
use robot_data_harness.Sharding.Planner.Failure.{pack-returns_iff}
use robot_data_harness.Sharding.Plan.{PlanRequest, Surroundings, plan_etl}
use robot_data_harness.Sharding.Plan.Totals.{plan_etl-total_bytes}
use robot_data_harness.Sharding.Runner.{
  RunWorld, EtlOutcome, returned, raised, ShardOptions, run_found,
}
use robot_data_harness.Sharding.Runner.Counts.{
  run_found-fail_fast, run_found_order, status_of_counts,
}
use robot_data_harness.Sharding.Runner.Verdict.{ends_well, ends_badly, run_found-status}
use robot_data_harness.Sharding.Merge.{merge_shard_summaries}
use robot_data_harness.Sharding.Merge.EndToEnd.{summaries, merge_end_to_end}

abbrev dataset : String → ℕ → PlanDataset
dataset id bytes = record { dataset_id = id; version = "v1"; dataset_uri = id; input_bytes = bytes }

abbrev found : List PlanDataset
found = dataset "a" 6 ∷ dataset "b" 20 ∷ dataset "c" 4 ∷ dataset "d" 9 ∷ dataset "e" 5 ∷ []

abbrev shard : ℕ → List PlanDataset → ℕ → PlanShard
shard i ds bytes = record {
  shard_id = new_shard_id "p" i;
  shard_index = i;
  datasets = ds;
  total_bytes = bytes;
  status = "PENDING";
}

abbrev three : List PlanShard
three =
    shard 0 (dataset "b" 20 ∷ []) 20
    ∷ shard 1 (dataset "d" 9 ∷ dataset "c" 4 ∷ []) 13
    ∷ shard 2 (dataset "a" 6 ∷ dataset "e" 5 ∷ []) 11
    ∷ []

abbrev four : List PlanShard
four =
    shard 0 (dataset "b" 20 ∷ []) 20
    ∷ shard 1 (dataset "d" 9 ∷ []) 9
    ∷ shard 2 (dataset "a" 6 ∷ dataset "c" 4 ∷ []) 10
    ∷ shard 3 (dataset "e" 5 ∷ []) 5
    ∷ []

pack-three : pack_into_shards 10 3 "p" found ≡ some three
unfolding pack_into_shards sorted_desc
pack-three = refl

pack-four : pack_into_shards 10 5 "p" found ≡ some four
unfolding pack_into_shards sorted_desc
pack-four = refl

pack-perm_example : Perm (held three) found
pack-perm_example = pack-perm 10 3 "p" found pack-three

pack-FitsTarget_example : All (FitsTarget 10) four
pack-FitsTarget_example = pack-FitsTarget 10 5 "p" found pack-four (omega arith)

pack-length_example : (1 ≤ length three) × (length three ≤ 3)
pack-length_example = pack-length 10 3 "p" found pack-three

pack-returns_iff_example :
    ((shards : List PlanShard) × (pack_into_shards 10 0 "p" found ≡ some shards))
    ↔ ((0 < 0) ⊎ (length found ≡ 0))
pack-returns_iff_example = pack-returns_iff 10 0 "p" found

abbrev outer : Surroundings ℕ
outer = record {
  fnmatch = λ name pattern. name == pattern;
  discover = λ _. found;
  bytes_of_gb = λ g. g;
  now = "now";
  new_plan_id = "p";
}

abbrev request : PlanRequest ℕ
request = record {
  root_uri = "s3://raw";
  lake_root = "s3://lake";
  target_shard_size_gb = 10;
  max_shards = 3;
  include_patterns = none;
  exclude_patterns = some ("z" ∷ []);
  plan_id = none;
}

abbrev plan : EtlPlan
plan = record {
  plan_id = "p";
  created_at = "now";
  root_uri = "s3://raw";
  lake_root = "s3://lake";
  target_shard_size_bytes = 10;
  total_datasets = 5;
  total_bytes = 44;
  shards = three;
  include_patterns = [];
  exclude_patterns = "z" ∷ [];
}

planned : plan_etl outer request ≡ some plan
unfolding plan_etl sorted_desc
planned = refl

plan_etl-total_bytes_example : 44 ≡ sum_of (λ s. s.total_bytes) three
plan_etl-total_bytes_example = plan_etl-total_bytes outer request planned

-- Dataset "a" raises; dataset "c" was skipped.
abbrev etl : PlanDataset → EtlOutcome
etl d = elim (d.dataset_id == "a") [
  | true ↦ raised "boom"
  | false ↦
      returned
        (record { status = "OK"; error = none; normalize = none; features = none; ads = none })
]

abbrev world : RunWorld
world = record { etl_run = etl; seconds = λ _. 1; now = "now"; elapsed = 2 }

abbrev options : Bool → ShardOptions
options fail_fast = record {
  max_workers = 2;
  fail_fast = fail_fast;
  output_summary_uri = none;
  local_summary = "shard_summary.json";
}

abbrev last : PlanShard
last = shard 2 (dataset "a" 6 ∷ dataset "e" 5 ∷ []) 11

abbrev completion : List PlanDataset
completion = dataset "e" 5 ∷ dataset "a" 6 ∷ []

completes : Perm completion last.datasets
completes = Perm.swap (dataset "a" 6) (dataset "e" 5) []

last_status : (run_found world (options false) plan last completion).status ≡ "WARN"
unfolding run_found
last_status = refl

run_found-status_example :
    let summary = run_found world (options false) plan last completion in
    let bad = count_if (λ d. ends_badly (world.etl_run d)) last.datasets in
    let well = count_if (λ d. ends_well (world.etl_run d)) last.datasets in
    (summary.status ≡ status_of_counts bad well)
    × (summary.failed ≡ bad)
    × (summary.succeeded ≡ well)
run_found-status_example =
    run_found-status world (options false) plan last completion completes refl

run_found-fail_fast_example : (run_found world (options true) plan last completion).failed ≤ 1
run_found-fail_fast_example = run_found-fail_fast world (options true) plan last completion refl

run_found_order_example :
    let pooled = run_found world (options false) plan last completion in
    let sequential =
      run_found world
        (record {
          max_workers = 1;
          fail_fast = false;
          output_summary_uri = none;
          local_summary = "shard_summary.json";
        })
        plan
        last
        last.datasets in
    (pooled.status ≡ sequential.status)
    × (pooled.succeeded ≡ sequential.succeeded)
    × (pooled.failed ≡ sequential.failed)
    × (pooled.skipped ≡ sequential.skipped)
    × (length pooled.runs ≡ pooled.total)
run_found_order_example = run_found_order world (options false) plan last completion completes refl

abbrev in_order : PlanShard → List PlanDataset
in_order s = s.datasets

in_order-All : All (λ s. Perm (in_order s) s.datasets) plan.shards
in_order-All = (Perm.rfl, (Perm.rfl, (Perm.rfl, tt)))

merge_end_to_end_example :
    let merged =
      merge_shard_summaries plan "now" (summaries world (options false) plan in_order three) in
    (merged.total ≡ 5)
    × (merged.succeeded + merged.failed + merged.skipped ≡ 5)
    × (merged.found_shards ≡ merged.expected_shards)
merge_end_to_end_example =
    merge_end_to_end outer request world (options false) in_order "now" planned in_order-All refl
