-- ===== src/Backfill/Run/Counts.antt =====
-- What a run of a plan does to its tasks.
use robot_data_harness.Common.{
  ℕ, ◌+◌, ◌≡◌, ◌⊎◌, refl, sym, ap, ◌∙◌, inl, inr, Bool, true, false, some, List, [], ◌∷◌, ◌++◌, map,
  length, Text, string_eq, if◌then◌else◌, arith,
}
use mathlib.Core.List.{append_assoc, append-nil}
use robot_data_harness.Backfill.Plan.{TaskRow}
use robot_data_harness.Backfill.Run.{
  Process, finished, raised, uncaught, Ended, ended, escaped, RunState, returned, interrupted,
  run_task, run_tasks, run_start, run, tasks_of, end_task, add_ended, running_row, full_command,
  keep_rest,
}

pub map-append {ℓ κ} :
    {A : Type ℓ} {B : Type κ} (f : A → B) (xs ys : List A) → map f (xs ++ ys) ≡ map f xs ++ map f ys
map-append f [] ys = refl
map-append f (x ∷ xs) ys = ap (◌∷◌ (f x)) (map-append f xs ys)

abbrev pub is_uncaught : Process → Bool
is_uncaught (finished rc stdout stderr) = false
is_uncaught (raised err) = false
is_uncaught (uncaught err) = true

-- A task that ends keeps its description and its attempts, and its status says how it ended.
abbrev pub IsEnd : TaskRow → Ended → Type 0
IsEnd t end =
    (end.row.task ≡ t.task)
    × (end.row.attempts ≡ t.attempts)
    × (end.output.task_id ≡ t.task.task_id)
    × (end.row.status ≡ (if end.succeeded then "SUCCEEDED" else "FAILED"))

pub end_task_cases :
    (full_cmd : List Text) (t : TaskRow) (p : Process)
    → ((end : Ended) × (end_task full_cmd t p ≡ ended end) × IsEnd t end)
      ⊎ ((err : Text) × (end_task full_cmd t p ≡ escaped err) × (is_uncaught p ≡ true))
unfolding end_task
end_task_cases full_cmd t (finished rc stdout stderr) = inl (_, refl, (refl, refl, refl, refl))
end_task_cases full_cmd t (raised err) = inl (_, refl, (refl, refl, refl, refl))
end_task_cases full_cmd t (uncaught err) = inr (err, refl, refl)

abbrev pub total_of : RunState → ℕ
total_of s = s.executed + s.failed + s.skipped

-- What a run keeps of the tasks that it was given, beside what it had before.
abbrev KeepsTasks : Bool → RunState → List TaskRow → RunState → Type 0
KeepsTasks execute s tasks s' =
    (total_of s' ≡ total_of s + length tasks)
    × (map (λ t. t.task) s'.rows ≡ map (λ t. t.task) s.rows ++ map (λ t. t.task) tasks)
    × (map (λ t. t.attempts) s'.rows
        ≡ map (λ t. t.attempts) s.rows
          ++ map (λ t. if execute then t.attempts + 1 else t.attempts) tasks)
    × (map (λ o. o.task_id) s'.outputs
        ≡ map (λ o. o.task_id) s.outputs ++ map (λ t. t.task.task_id) tasks)

module _ (subprocess : (call : ℕ) → List Text → Process) (dry_run : Bool) where
  -- The loop goes on after a task that ended, and stops at an exception.
  pub run_tasks-returned :
      (execute : Bool) (call : ℕ) (t : TaskRow) (tasks : List TaskRow) (s s' : RunState)
      → run_task subprocess execute dry_run call t s ≡ returned s'
      → run_tasks subprocess execute dry_run call (t ∷ tasks) s
        ≡ run_tasks subprocess execute dry_run (call + 1) tasks s'
  unfolding run_tasks
  run_tasks-returned execute call t tasks s s' e = rw (e, run_tasks) refl

  pub run_tasks-interrupted :
      (execute : Bool) (call : ℕ) (t : TaskRow) (tasks : List TaskRow) (s s' : RunState)
      (err : Text)
      → run_task subprocess execute dry_run call t s ≡ interrupted err s'
      → run_tasks subprocess execute dry_run call (t ∷ tasks) s
        ≡ interrupted err (keep_rest tasks s')
  unfolding run_tasks
  run_tasks-interrupted execute call t tasks s s' err e = rw (e, run_tasks) refl

  module _ (caught : (call : ℕ) (cmd : List Text) → is_uncaught (subprocess call cmd) ≡ false) where
    run_task-KeepsTasks :
        (execute : Bool) (call : ℕ) (t : TaskRow) (s : RunState)
        → (s' : RunState) × (run_task subprocess execute dry_run call t s ≡ returned s')
          × KeepsTasks execute s (t ∷ []) s'
    unfolding run_task add_ended running_row
    run_task-KeepsTasks false call t s = (
      _,
      refl,
      (
        omega arith,
        map-append _ s.rows (t ∷ []),
        map-append _ s.rows (t ∷ []),
        map-append _ s.outputs _,
      ),
    )
    run_task-KeepsTasks true call t s =
        let cmd = full_command dry_run t in
        elim (end_task_cases cmd (running_row t) (subprocess call cmd)) [
          | inl (end, e, (task, attempts, id, status)) ↦ (
            add_ended end s,
            rw e refl,
            (
              ground arith,
              map-append _ s.rows _ ∙ ap (λ x. map (λ r. r.task) s.rows ++ x ∷ []) task,
              map-append _ s.rows _ ∙ ap (λ x. map (λ r. r.attempts) s.rows ++ x ∷ []) attempts,
              map-append _ s.outputs _ ∙ ap (λ x. map (λ o. o.task_id) s.outputs ++ x ∷ []) id,
            ),
          )
          | inr (err, e, wild) ↦ cc (caught call cmd, wild)
        ]

    run_tasks-KeepsTasks :
        (execute : Bool) (call : ℕ) (tasks : List TaskRow) (s : RunState)
        → (s' : RunState) × (run_tasks subprocess execute dry_run call tasks s ≡ returned s')
          × KeepsTasks execute s tasks s'
    unfolding run_tasks
    run_tasks-KeepsTasks execute call [] s =
        (s, refl, (omega arith, sym (append-nil _), sym (append-nil _), sym (append-nil _)))
    run_tasks-KeepsTasks execute call (t ∷ tasks) s =
        let (s', e, (count', same', tried', printed')) = run_task-KeepsTasks execute call t s in
        let (last, e', (count, same, tried, printed)) =
          run_tasks-KeepsTasks execute (call + 1) tasks s' in
        (
          last,
          run_tasks-returned execute call t tasks s s' e ∙ e',
          (
            omega (arith, count, count'),
            same
                ∙ (ap (λ l. l ++ map (λ r. r.task) tasks) same'
                    ∙ append_assoc (map (λ r. r.task) s.rows) _ _),
            tried
                ∙ (ap (λ l. l ++ map (λ r. if execute then r.attempts + 1 else r.attempts) tasks)
                      tried'
                    ∙ append_assoc (map (λ r. r.attempts) s.rows) _ _),
            printed
                ∙ (ap (λ l. l ++ map (λ r. r.task.task_id) tasks) printed'
                    ∙ append_assoc (map (λ o. o.task_id) s.outputs) _ _),
          ),
        )

    -- A run of a plan whose table exists, when each process exits, times out or ends with an OSError,
    -- returns. It counts each task of the plan once, as executed, failed or skipped, and prints an output
    -- for each, in their order. It keeps the descriptions of the tasks; with `--execute` each task has one
    -- more attempt, and without it none.
    pub run-keeps :
        (execute : Bool) (plan_id : Text) (rows : List TaskRow)
        → (s : RunState) × (run subprocess execute dry_run plan_id (some rows) ≡ some (returned s))
          × (total_of s ≡ length (tasks_of plan_id rows))
          × (map (λ t. t.task) s.rows ≡ map (λ t. t.task) (tasks_of plan_id rows))
          × (map (λ t. t.attempts) s.rows
              ≡ map (λ t. if execute then t.attempts + 1 else t.attempts) (tasks_of plan_id rows))
          × (map (λ o. o.task_id) s.outputs ≡ map (λ t. t.task.task_id) (tasks_of plan_id rows))
    unfolding run run_start
    run-keeps execute plan_id rows =
        let (s, e, (count, same, tried, printed)) =
          run_tasks-KeepsTasks execute 0 (tasks_of plan_id rows) run_start in
        (s, ap some e, omega (arith, count), same, tried, printed)

  abbrev OnlyPrints : RunState → List TaskRow → RunState → Type 0
  OnlyPrints s tasks s' =
      (s'.rows ≡ s.rows ++ tasks)
      × (s'.commits ≡ s.commits)
      × (s'.skipped ≡ s.skipped + length tasks)
      × (map (λ o. o.command) s'.outputs
          ≡ map (λ o. o.command) s.outputs ++ map (λ t. t.task.recommended_command) tasks)

  run_tasks-OnlyPrints :
      (call : ℕ) (tasks : List TaskRow) (s : RunState)
      → (s' : RunState) × (run_tasks subprocess false dry_run call tasks s ≡ returned s')
        × OnlyPrints s tasks s'
  unfolding run_tasks run_task
  run_tasks-OnlyPrints call [] s =
      (s, refl, (sym (append-nil _), refl, omega arith, sym (append-nil _)))
  run_tasks-OnlyPrints call (t ∷ tasks) s =
      let (s', e, (same, quiet, count, printed)) = run_tasks-OnlyPrints (call + 1) tasks _ in
      let later = map (λ r. r.task.recommended_command) tasks in
      (
        s',
        e,
        (
          same ∙ append_assoc s.rows (t ∷ []) tasks,
          quiet,
          omega (arith, count),
          printed
              ∙ (ap (λ l. l ++ later) (map-append (λ o. o.command) s.outputs _)
                  ∙ append_assoc (map (λ o. o.command) s.outputs) (t.task.recommended_command ∷ [])
                      later),
        ),
      )

  -- Without `--execute` a run of a plan whose table exists leaves every task as it is and commits
  -- nothing: it only prints the commands.
  pub run-print_only :
      (plan_id : Text) (rows : List TaskRow)
      → (s : RunState) × (run subprocess false dry_run plan_id (some rows) ≡ some (returned s))
        × (s.rows ≡ tasks_of plan_id rows)
        × (s.commits ≡ [])
        × (s.skipped ≡ length (tasks_of plan_id rows))
        × (map (λ o. o.command) s.outputs
            ≡ map (λ t. t.task.recommended_command) (tasks_of plan_id rows))
  unfolding run run_start
  run-print_only plan_id rows =
      let (s, e, (same, quiet, count, printed)) =
        run_tasks-OnlyPrints 0 (tasks_of plan_id rows) run_start in
      (s, ap some e, same, quiet, omega (arith, count), printed)
