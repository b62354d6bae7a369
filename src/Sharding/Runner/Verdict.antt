-- ===== src/Sharding/Runner/Verdict.antt =====
-- The status of a shard by what `etl_run` did to its datasets.
use mathlib.Core.List.{Perm}
use robot_data_harness.Common.{
  ◌≡◌, ◌⊎◌, String, refl, ◌∙◌, inl, inr, Bool, true, false, not, ◌||◌, List, [], ◌∷◌, arith,
  count_if, ◌==◌, map, ap₂,
}
use robot_data_harness.Sharding.Model.{PlanDataset, PlanShard, EtlPlan}
use robot_data_harness.Sharding.Runner.{
  EtlOutcome, DatasetRun, returned, raised, RunWorld, ShardOptions, run_one_dataset, run_found,
  is_success, status_of,
}
use robot_data_harness.Sharding.Perf.{EtlRunResult}
use robot_data_harness.Sharding.Runner.Counts.{
  succeeds, fails, status_of_counts, run_found-own_counts, run_found-IsCounted,
}

-- The run returned a result whose status is OK or WARN.
abbrev pub ends_well : EtlOutcome → Bool
ends_well (returned r) = r.status == "OK" || r.status == "WARN"
ends_well (raised e) = false

-- The run raised, or its status is neither of them and not SKIPPED.
abbrev pub ends_badly : EtlOutcome → Bool
ends_badly (returned r) = not (r.status == "OK" || (r.status == "WARN" || r.status == "SKIPPED"))
ends_badly (raised e) = true

outcome_cases :
    (o : EtlOutcome) → ((r : EtlRunResult) × (o ≡ returned r)) ⊎ ((e : String) × (o ≡ raised e))
outcome_cases (returned r) = inl (r, refl)
outcome_cases (raised e) = inr (e, refl)

module _ (world : RunWorld) (plan : EtlPlan) (shard : PlanShard) where
  succeeds-run_one_dataset :
      (d : PlanDataset)
      → (succeeds (run_one_dataset world plan shard d) ≡ ends_well (world.etl_run d))
        × (fails (run_one_dataset world plan shard d) ≡ ends_badly (world.etl_run d))
  unfolding run_one_dataset is_success status_of
  succeeds-run_one_dataset d = elim (outcome_cases (world.etl_run d)) [
    | inl (r, e) ↦ rw e (ground arith, ground arith)
    | inr (m, e) ↦ rw e (refl, refl)
  ]

  count_if-runs :
      (p : DatasetRun → Bool) (q : EtlOutcome → Bool)
      → ((d : PlanDataset) → p (run_one_dataset world plan shard d) ≡ q (world.etl_run d))
      → (ds : List PlanDataset)
      → count_if p (map (run_one_dataset world plan shard) ds)
        ≡ count_if (λ d. q (world.etl_run d)) ds
  count_if-runs p q h [] = refl
  count_if-runs p q h (d ∷ ds) = rw (h d, count_if-runs p q h ds) refl

-- Without `fail_fast` the status of a shard is OK if no dataset ended badly, FAIL if some did and none
-- ended well, and WARN if some ended badly and some well; and these are the numbers of failed and of
-- succeeded datasets in its summary. A dataset ends well when its run returns OK or WARN, and badly when
-- its run raises or returns another status than these and SKIPPED.
pub run_found-status :
    (world : RunWorld) (o : ShardOptions) (plan : EtlPlan) (shard : PlanShard)
    (completion : List PlanDataset)
    → Perm completion shard.datasets
    → o.fail_fast ≡ false
    → let bad = count_if (λ d. ends_badly (world.etl_run d)) shard.datasets in
      let well = count_if (λ d. ends_well (world.etl_run d)) shard.datasets in
      let summary = run_found world o plan shard completion in
      (summary.status ≡ status_of_counts bad well)
      × (summary.failed ≡ bad)
      × (summary.succeeded ≡ well)
run_found-status world o plan shard completion completes slow =
    let c = run_found-IsCounted world o plan shard completion completes slow in
    let failed =
      c.2
      ∙ count_if-runs world plan shard fails ends_badly
          (λ d. (succeeds-run_one_dataset world plan shard d).1) shard.datasets in
    let succeeded =
      c.0
      ∙ count_if-runs world plan shard succeeds ends_well
          (λ d. (succeeds-run_one_dataset world plan shard d).0) shard.datasets in
    (
      run_found-own_counts world o plan shard completion completes
          ∙ ap₂ status_of_counts failed succeeded,
      failed,
      succeeded,
    )
