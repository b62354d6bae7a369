-- ===== src/Sharding/Merge/EndToEnd.antt =====
-- From the plan through the runs of its shards to the merged summary.
use mathlib.Core.List.{Perm}
use robot_data_harness.Common.{
  ◌+◌, String, ◌≡◌, refl, false, Option, some, List, [], ◌∷◌, arith, length, length-append, sum_of,
  All,
}
use robot_data_harness.Sharding.Model.{PlanDataset, PlanShard, EtlPlan}
use robot_data_harness.Sharding.Planner.Contents.{held}
use robot_data_harness.Sharding.Plan.{PlanRequest, Surroundings, plan_etl}
use robot_data_harness.Sharding.Plan.Totals.{plan_etl-held}
use robot_data_harness.Sharding.Runner.{RunWorld, ShardOptions, ShardSummary, run_found}
use robot_data_harness.Sharding.Runner.Counts.{run_found-counts, run_found_order}
use robot_data_harness.Sharding.Merge.{
  PlanSummary, readable, absorb, absorb_all, merge_start, merge_shard_summaries,
}

-- The merged counts are the sums over the summaries that could be read.
pub absorb_all-sums :
    (summaries : List ShardSummary) (p : PlanSummary)
    → ((absorb_all summaries p).total ≡ p.total + sum_of (λ s. s.total) summaries)
      × ((absorb_all summaries p).succeeded ≡ p.succeeded + sum_of (λ s. s.succeeded) summaries)
      × ((absorb_all summaries p).failed ≡ p.failed + sum_of (λ s. s.failed) summaries)
      × ((absorb_all summaries p).skipped ≡ p.skipped + sum_of (λ s. s.skipped) summaries)
unfolding absorb_all
absorb_all-sums [] p = omega arith
absorb_all-sums (s ∷ summaries) p = omega (arith, absorb_all-sums summaries (absorb s p))

absorb_all-found :
    (summaries : List ShardSummary) (p : PlanSummary)
    → ((absorb_all summaries p).found_shards ≡ p.found_shards)
      × ((absorb_all summaries p).expected_shards ≡ p.expected_shards)
unfolding absorb_all
absorb_all-found [] p = (refl, refl)
absorb_all-found (s ∷ summaries) p = absorb_all-found summaries (absorb s p)

module _ (world : RunWorld) (o : ShardOptions) (plan : EtlPlan)
    (completion : PlanShard → List PlanDataset) where
  -- Each shard's run left its summary.
  pub summaries : List PlanShard → List (Option ShardSummary)
  summaries [] = []
  summaries (s ∷ shards) = some (run_found world o plan s (completion s)) ∷ summaries shards

  abbrev pub Completes : List PlanShard → Type 0
  Completes = All (λ s. Perm (completion s) s.datasets)

  record IsComplete (shards : List PlanShard) (read : List ShardSummary) : Type 0 where
    totals : sum_of (λ s. s.total) read ≡ length (held shards)
    found : length read ≡ length shards
    split :
        sum_of (λ s. s.succeeded) read + sum_of (λ s. s.failed) read + sum_of (λ s. s.skipped) read
        ≡ sum_of (λ s. s.total) read

  run_found-total :
      (s : PlanShard) → (run_found world o plan s (completion s)).total ≡ length s.datasets
  unfolding run_found
  run_found-total s = refl

  summaries-IsComplete :
      (shards : List PlanShard)
      → Completes shards
      → o.fail_fast ≡ false
      → IsComplete shards (readable (summaries shards))
  unfolding readable summaries
  summaries-IsComplete [] done slow = record { totals = refl; found = refl; split = refl }
  summaries-IsComplete (s ∷ shards) done slow =
      let rest = summaries-IsComplete shards done.1 slow in
      let total = run_found-total s in
      let counts = run_found-counts world o plan s (completion s) done.0 in
      let all_ran = run_found_order world o plan s (completion s) done.0 slow in
      record {
        totals = omega (arith, rest, total, length-append s.datasets (held shards));
        found = omega (arith, rest);
        split = omega (arith, rest, counts.0, all_ran.4);
      }

-- A plan whose shards all ran without `fail_fast`, each in some order of completion, merges to a
-- summary that accounts for every dataset of the plan: `total` is the plan's number of datasets, the
-- succeeded, failed and skipped ones add up to it, and every expected shard is found.
pub merge_end_to_end :
    {Gb : Type 0} (outer : Surroundings Gb) (r : PlanRequest Gb) {plan : EtlPlan} (world : RunWorld)
    (o : ShardOptions) (completion : PlanShard → List PlanDataset) (now : String)
    → plan_etl outer r ≡ some plan
    → All (λ s. Perm (completion s) s.datasets) plan.shards
    → o.fail_fast ≡ false
    → let merged = merge_shard_summaries plan now (summaries world o plan completion plan.shards) in
      (merged.total ≡ plan.total_datasets)
      × (merged.succeeded + merged.failed + merged.skipped ≡ plan.total_datasets)
      × (merged.found_shards ≡ merged.expected_shards)
unfolding merge_shard_summaries merge_start
merge_end_to_end outer r {plan} world o completion now planned done slow =
    let read = readable (summaries world o plan completion plan.shards) in
    let complete = summaries-IsComplete world o plan completion plan.shards done slow in
    let start = merge_start plan now (length read) in
    let sums = absorb_all-sums read start in
    let held_all = plan_etl-held outer r planned in
    let found = absorb_all-found read start in
    (
      omega (arith, sums, complete, held_all),
      omega (arith, sums, complete, held_all),
      omega (arith, found, complete),
    )
