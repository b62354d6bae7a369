-- ===== src/Sharding/Merge.antt =====
-- src/robot_dh/sharding/merge.py: the summaries of the shards become the summary of the plan. The
-- argument holds, in the order of their URIs, what reading each summary file gave: `none` where the
-- read or the parse raised, which is logged and passed over.
pub mod EndToEnd
use robot_data_harness.Common.{
  ℕ, ◌+◌, max, String, Option, none, some, List, [], ◌∷◌, ◌++◌, length, select, if◌then◌else◌, ◌==◌,
}
use robot_data_harness.Sharding.Model.{EtlPlan}
use robot_data_harness.Sharding.Runner.{DatasetRun, ShardSummary}

pub record FailedDataset : Type 0 where
  pub shard_id : String
  pub dataset_id : String
  pub version : String
  pub error_message : Option String

pub record ShardStats : Type 0 where
  pub shard_id : String
  pub shard_index : Option ℕ
  pub status : String
  pub total : ℕ
  pub succeeded : ℕ
  pub failed : ℕ
  pub skipped : ℕ
  pub duration_sec : ℕ
  pub summary_uri : Option String

pub record PlanSummary : Type 0 where
  pub plan_id : String
  pub lake_root : String
  pub root_uri : String
  pub created_at : String
  pub total : ℕ
  pub succeeded : ℕ
  pub failed : ℕ
  pub skipped : ℕ
  pub duration : ℕ
  pub failed_datasets : List FailedDataset
  pub per_shard_stats : List ShardStats
  pub expected_shards : ℕ
  pub found_shards : ℕ

pub readable : List (Option ShardSummary) → List ShardSummary
readable [] = []
readable (none ∷ files) = readable files
readable (some s ∷ files) = s ∷ readable files

stats : ShardSummary → ShardStats
stats s = record {
  shard_id = s.shard_id;
  shard_index = s.shard_index;
  status = s.status;
  total = s.total;
  succeeded = s.succeeded;
  failed = s.failed;
  skipped = s.skipped;
  duration_sec = s.duration_sec;
  summary_uri = s.summary_uri;
}

pub failed_runs : String → List DatasetRun → List FailedDataset
failed_runs shard_id [] = []
failed_runs shard_id (run ∷ runs) =
    if run.status == "FAIL"
    then record {
      shard_id = shard_id;
      dataset_id = run.dataset_id;
      version = run.version;
      error_message = run.error_message;
    }
      ∷ failed_runs shard_id runs
    else failed_runs shard_id runs

-- The body of the loop.
pub absorb : ShardSummary → PlanSummary → PlanSummary
unfolding stats failed_runs
absorb s p = record p {
  total = p.total + s.total;
  succeeded = p.succeeded + s.succeeded;
  failed = p.failed + s.failed;
  skipped = p.skipped + s.skipped;
  duration = max p.duration s.duration_sec;
  failed_datasets = p.failed_datasets ++ failed_runs s.shard_id s.runs;
  per_shard_stats = p.per_shard_stats ++ stats s ∷ [];
}

pub absorb_all : List ShardSummary → PlanSummary → PlanSummary
unfolding absorb
absorb_all [] p = p
absorb_all (s ∷ summaries) p = absorb_all summaries (absorb s p)

pub merge_start : EtlPlan → (now : String) → (found : ℕ) → PlanSummary
merge_start plan now found = record {
  plan_id = plan.plan_id;
  lake_root = plan.lake_root;
  root_uri = plan.root_uri;
  created_at = now;
  total = 0;
  succeeded = 0;
  failed = 0;
  skipped = 0;
  duration = 0;
  failed_datasets = [];
  per_shard_stats = [];
  expected_shards = length plan.shards;
  found_shards = found;
}

unfoldable pub merge_shard_summaries :
    EtlPlan → (now : String) → List (Option ShardSummary) → PlanSummary
unfolding readable absorb_all merge_start
merge_shard_summaries plan now files =
    absorb_all (readable files) (merge_start plan now (length (readable files)))
