-- ===== src/Backfill/Plan/Outcome.antt =====
-- What `plan` returns and what it stores.
use robot_data_harness.Common.{
  ℕ, ◌≡◌, refl, ◌≤◌, inl, inr, Bool, true, false, not, ◌||◌, some, List, [], ◌∷◌, map, Text,
  if◌then◌else◌, Bool-cases, ltb, arith,
}
use mathlib.Core.List.{Perm}
use robot_data_harness.Backfill.Keys.{Key}
use robot_data_harness.Backfill.Keys.Sorting.{Agreeing, sorted_keys-perm}
use robot_data_harness.Backfill.Candidates.{
  DateRange, date_range, Tables, PlanRequest, collect_candidates,
}
use robot_data_harness.Backfill.Plan.{
  BackfillTask, TaskRow, BackfillPlanResult, planned, persisted, dry_run_only, tables_missing,
  task_of, persist, plan,
}

abbrev pub window_of : PlanRequest → DateRange
window_of request = record { start = request.from_date; end = request.to_date }

module _ (upper lower : Text → Text) (iso : ℕ → Text) where
  persist-missing :
      (tables : Tables) (tasks : List BackfillTask) (rows : List TaskRow)
      → tables.backfill_tables ≡ false
      → persist upper lower iso tables tasks rows ≡ rows
  unfolding persist
  persist-missing tables [] rows h = refl
  persist-missing tables (t ∷ tasks) rows h = rw h

  unwritten :
      (dry_run : Bool) (tables : Tables) (tasks : List BackfillTask) (rows : List TaskRow)
      → (if dry_run || not tables.backfill_tables
          then if dry_run then rows else persist upper lower iso tables tasks rows
          else rows)
        ≡ rows
  unwritten true tables tasks rows = refl
  unwritten false tables tasks rows = elim (Bool-cases tables.backfill_tables) [
    | inl e ↦ simp e refl
    | inr e ↦ rw (persist-missing tables tasks rows e, e) refl
  ]

  -- A plan over a window that does not end before it begins returns, when no two candidates of one run
  -- differ in that one has a family and the other has none. It has one task for each candidate, made
  -- from its key. A dry run leaves the rows as they are and has the status PLANNED. Any other plan has
  -- the status PERSISTED, also when the tables are missing: then it leaves the rows as they are, and
  -- the warning is all that tells.
  pub plan-returns :
      (plan_id : Text) (request : PlanRequest) (tables : Tables) (rows : List TaskRow)
      → request.from_date ≤ request.to_date
      → Agreeing (collect_candidates upper request (window_of request) tables)
      → (result : BackfillPlanResult) × (rows' : List TaskRow) × (keys : List Key) × (plan upper
            lower iso plan_id request tables rows
          ≡ some (result, rows'))
        × Perm keys (collect_candidates upper request (window_of request) tables)
        × (result.tasks ≡ map (task_of upper lower iso plan_id) keys)
        × (result.status ≡ (if request.dry_run then planned else persisted))
        × (result.warnings ≡ (
            if request.dry_run
            then dry_run_only ∷ []
            else if tables.backfill_tables
            then []
            else tables_missing ∷ []))
        × ((if request.dry_run || not tables.backfill_tables then rows' else rows) ≡ rows)
  unfolding plan date_range
  plan-returns plan_id request tables rows ordered agreeing =
      let (keys, sorted, same) =
        sorted_keys-perm (collect_candidates upper request (window_of request) tables) agreeing in
      let in_order : ltb request.to_date request.from_date ≡ false = ground (arith, ordered) in
      let tasks = map (task_of upper lower iso plan_id) keys in
      let result : BackfillPlanResult = record {
        plan_id = plan_id;
        window = window_of request;
        status = if request.dry_run then planned else persisted;
        tasks = tasks;
        warnings =
            if request.dry_run
            then dry_run_only ∷ []
            else if tables.backfill_tables
            then []
            else tables_missing ∷ [];
      } in
      (
        result,
        if request.dry_run then rows else persist upper lower iso tables tasks rows,
        keys,
        rw (in_order, sorted) refl,
        same,
        refl,
        refl,
        refl,
        unwritten request.dry_run tables tasks rows,
      )
