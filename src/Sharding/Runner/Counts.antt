-- ===== src/Sharding/Runner/Counts.antt =====
-- The counters of a shard's run.
use mathlib.Core.List.{Perm}
use mathlib.Core.List.Perm
use robot_data_harness.Common.{
  ℕ, zero, suc, ◌+◌, ◌≤◌, String, ◌≡◌, refl, inl, inr, Bool, true, false, not, ◌&&◌, ◌||◌, List, [],
  ◌∷◌, arith, length, length-append, leb, count_if, sum_of-map, sum_of-perm, sym, ◌∙◌, ap₂,
  length-map, length-perm, Bool-cases, if◌then◌else◌, ◌==◌, map,
}
use robot_data_harness.Sharding.Model.{PlanDataset, PlanShard, EtlPlan}
use robot_data_harness.Sharding.Runner.{
  RunWorld, ShardOptions, DatasetRun, ShardSummary, Tally, tally, empty_tally, is_success, succeed,
  skip, fail, final_status, visit_order, run_one_dataset, run_found,
}

abbrev counted : Tally → ℕ
counted t = t.succeeded + t.failed + t.skipped

-- The three ways on, whatever the loop does next.
tally_ind {ℓ} :
    (P : Tally → Type ℓ)
    → ((run : DatasetRun) (t : Tally) → P t → P (succeed run t) × P (skip run t) × P (fail run t))
    → (fail_fast : Bool) (runs : List DatasetRun) (t : Tally) → P t
    → P (tally fail_fast runs t)
unfolding tally
tally_ind P step fail_fast [] t p = p
tally_ind P step fail_fast (run ∷ rest) t p =
    let (ps, pk, pf) = step run t p in
    elim (Bool-cases (is_success run.status)) [
      | inl e ↦ rw e (tally_ind P step fail_fast rest _ ps)
      | inr e ↦ rw e (elim (Bool-cases (run.status == "SKIPPED")) [
        | inl e' ↦ rw e' (tally_ind P step fail_fast rest _ pk)
        | inr e' ↦ rw e' (elim (Bool-cases fail_fast) [
          | inl f ↦ rw f pf
          | inr f ↦ rw f (tally_ind P step fail_fast rest _ pf)
        ])
      ])
    ]

tally-counted :
    (fail_fast : Bool) (runs : List DatasetRun) (t : Tally)
    → counted t ≡ length t.runs
    → counted (tally fail_fast runs t) ≡ length (tally fail_fast runs t).runs
tally-counted =
    tally_ind (λ t. counted t ≡ length t.runs)
      (λ run t h.
        let e = length-append t.runs (run ∷ []) in
        (omega (arith, e), omega (arith, e), omega (arith, e)))

-- The loop without `fail_fast` sees every run, and counts them by their status.
abbrev pub succeeds : DatasetRun → Bool
succeeds run = is_success run.status

abbrev skips : DatasetRun → Bool
skips run = not (is_success run.status) && (run.status == "SKIPPED")

abbrev pub fails : DatasetRun → Bool
fails run = not (is_success run.status) && not (run.status == "SKIPPED")

record IsCounted (runs : List DatasetRun) (t u : Tally) : Type 0 where
  succeeded : u.succeeded ≡ t.succeeded + count_if succeeds runs
  skipped : u.skipped ≡ t.skipped + count_if skips runs
  failed : u.failed ≡ t.failed + count_if fails runs
  seen : length u.runs ≡ length t.runs + length runs

tally-IsCounted : (runs : List DatasetRun) (t : Tally) → IsCounted runs t (tally false runs t)
unfolding tally
tally-IsCounted [] t = ground arith
tally-IsCounted (run ∷ rest) t =
    let e = length-append t.runs (run ∷ []) in
    elim (Bool-cases (is_success run.status)) [
      | inl s ↦ let h = tally-IsCounted rest (succeed run t) in ground (arith, h, e)
      | inr s ↦ elim (Bool-cases (run.status == "SKIPPED")) [
        | inl s' ↦ let h = tally-IsCounted rest (skip run t) in ground (arith, h, e)
        | inr s' ↦ let h = tally-IsCounted rest (fail run t) in ground (arith, h, e)
      ]
    ]

tally-length-le :
    (fail_fast : Bool) (runs : List DatasetRun) (t : Tally)
    → length (tally fail_fast runs t).runs ≤ length t.runs + length runs
unfolding tally
tally-length-le fail_fast [] t = omega arith
tally-length-le fail_fast (run ∷ rest) t =
    let e = length-append t.runs (run ∷ []) in
    let by_success = tally-length-le fail_fast rest (succeed run t) in
    let by_skip = tally-length-le fail_fast rest (skip run t) in
    let by_failure = tally-length-le fail_fast rest (fail run t) in
    ground (arith, e, by_success, by_skip, by_failure)

tally-failed-le : (runs : List DatasetRun) (t : Tally) → (tally true runs t).failed ≤ t.failed + 1
unfolding tally
tally-failed-le [] t = omega arith
tally-failed-le (run ∷ rest) t =
    let by_success = tally-failed-le rest (succeed run t) in
    let by_skip = tally-failed-le rest (skip run t) in ground (arith, by_success, by_skip)

-- OK if nothing failed, FAIL if nothing succeeded, and else WARN.
abbrev pub status_of_counts : (failed succeeded : ℕ) → String
status_of_counts zero succeeded = "OK"
status_of_counts (suc failed) zero = "FAIL"
status_of_counts (suc failed) (suc succeeded) = "WARN"

-- A failed dataset makes the shard's list of datasets nonempty, so that test decides nothing.
final_status_lem :
    (n succeeded failed : ℕ)
    → succeeded + failed ≤ n
    → final_status n succeeded failed ≡ status_of_counts failed succeeded
unfolding final_status
final_status_lem n succeeded zero h = ground arith
final_status_lem n zero (suc failed) h = ground arith
final_status_lem n (suc succeeded) (suc failed) h = ground arith

count_if-map :
    (p : DatasetRun → Bool) (f : PlanDataset → DatasetRun) {xs ys : List PlanDataset}
    → Perm xs ys
    → count_if p (map f xs) ≡ count_if p (map f ys)
count_if-map p f {xs} {ys} same =
    sum_of-map (λ r. if p r then 1 else 0) f xs
    ∙ (sum_of-perm (λ d. if p (f d) then 1 else 0) same
        ∙ sym (sum_of-map (λ r. if p r then 1 else 0) f ys))

module _ (world : RunWorld) (o : ShardOptions) (plan : EtlPlan) (shard : PlanShard)
    (completion : List PlanDataset) (completes : Perm completion shard.datasets) where
  abbrev summary : ShardSummary
  summary = run_found world o plan shard completion

  visit_order-perm : Perm (visit_order o shard completion) shard.datasets
  unfolding visit_order
  visit_order-perm = elim (Bool-cases (leb o.max_workers 1 || leb (length shard.datasets) 1)) [
    | inl e ↦ rw e (Perm.refl shard.datasets)
    | inr e ↦ rw e completes
  ]

  abbrev outcome : PlanDataset → DatasetRun
  outcome = run_one_dataset world plan shard

  -- Every run is counted once: the three counts add up to the runs, and no dataset runs twice.
  pub run_found-counts :
      (summary.succeeded + summary.failed + summary.skipped ≡ length summary.runs)
      × (length summary.runs ≤ summary.total)
  unfolding run_found empty_tally
  run_found-counts =
      let runs = map outcome (visit_order o shard completion) in
      (
        tally-counted o.fail_fast runs empty_tally refl,
        omega (
          arith,
          tally-length-le o.fail_fast runs empty_tally,
          length-map outcome (visit_order o shard completion),
          length-perm visit_order-perm,
        ),
      )

  -- The status follows from the two counts of the summary.
  pub run_found-own_counts : summary.status ≡ status_of_counts summary.failed summary.succeeded
  unfolding run_found
  run_found-own_counts = final_status_lem _ _ _ (omega (arith, run_found-counts))

  pub run_found-IsCounted :
      o.fail_fast ≡ false
      → (summary.succeeded ≡ count_if succeeds (map outcome shard.datasets))
        × (summary.skipped ≡ count_if skips (map outcome shard.datasets))
        × (summary.failed ≡ count_if fails (map outcome shard.datasets))
        × (length summary.runs ≡ summary.total)
  unfolding run_found empty_tally
  run_found-IsCounted slow =
      let order = visit_order o shard completion in
      let c = tally-IsCounted (map outcome order) empty_tally in
      let moved : (p : DatasetRun → Bool)
          → count_if p (map outcome order) ≡ count_if p (map outcome shard.datasets) =
        λ p. count_if-map p outcome visit_order-perm in
      rw slow (
        omega (arith, c, moved succeeds),
        omega (arith, c, moved skips),
        omega (arith, c, moved fails),
        omega (arith, c, length-map outcome order, length-perm visit_order-perm),
      )

-- With `fail_fast` at most one dataset is counted as failed, whatever the order of completion.
pub run_found-fail_fast :
    (world : RunWorld) (o : ShardOptions) (plan : EtlPlan) (shard : PlanShard)
    (completion : List PlanDataset)
    → o.fail_fast ≡ true
    → (run_found world o plan shard completion).failed ≤ 1
unfolding run_found empty_tally
run_found-fail_fast world o plan shard completion fast = rw fast (
    tally-failed-le (map (run_one_dataset world plan shard) (visit_order o shard completion))
      empty_tally)

-- Without `fail_fast` the pool's order does not matter: with any number of workers, and in any order
-- of completion, the status and the counts are those of the sequential run, and every dataset runs.
pub run_found_order :
    (world : RunWorld) (o : ShardOptions) (plan : EtlPlan) (shard : PlanShard)
    (completion : List PlanDataset)
    → Perm completion shard.datasets
    → o.fail_fast ≡ false
    → let pooled = run_found world o plan shard completion in
      let sequential = run_found world (record o { max_workers = 1 }) plan shard shard.datasets in
      (pooled.status ≡ sequential.status)
      × (pooled.succeeded ≡ sequential.succeeded)
      × (pooled.failed ≡ sequential.failed)
      × (pooled.skipped ≡ sequential.skipped)
      × (length pooled.runs ≡ pooled.total)
run_found_order world o plan shard completion completes slow =
    let p = run_found-IsCounted world o plan shard completion completes slow in
    let one : ShardOptions = record o { max_workers = 1 } in
    let s =
      run_found-IsCounted world one plan shard shard.datasets (Perm.refl shard.datasets) slow in
    let failed = p.2 ∙ sym s.2 in
    let succeeded = p.0 ∙ sym s.0 in
    let by_counts = run_found-own_counts world o plan shard completion completes in
    let by_counts' =
      run_found-own_counts world one plan shard shard.datasets (Perm.refl shard.datasets) in
    (
      by_counts ∙ (ap₂ status_of_counts failed succeeded ∙ sym by_counts'),
      succeeded,
      failed,
      p.1 ∙ sym s.1,
      p.3,
    )
