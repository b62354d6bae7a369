-- ===== src/Backfill/Run/Settled.antt =====
-- What `status` counts after a run, and what a run leaves that an exception cut off.
use robot_data_harness.Common.{
  ℕ, ◌+◌, ◌≡◌, refl, sym, ap, subst, ◌∙◌, inl, inr, Bool, true, some, List, [], ◌∷◌, ◌++◌, map,
  length, length-append, Text, String, Dict, get, put, get-put, string_eq, ◌==◌, eq_iff,
  if◌then◌else◌, sum_of-append, count_if, Bool-cases, arith,
}
use mathlib.Core.List.{append_assoc, append-nil}
use robot_data_harness.Backfill.Plan.{TaskRow}
use robot_data_harness.Backfill.Run.{
  Process, Ended, RunState, RunOutcome, returned, interrupted, run_task, run_tasks, run_start, run,
  tasks_of, add_ended, add_running, running_row, full_command, status_buckets, count_statuses,
  bucket_count, or_unknown,
}
use robot_data_harness.Backfill.Run.Counts.{
  is_uncaught, IsEnd, end_task_cases, run_tasks-returned, run_tasks-interrupted,
}

-- The count of a status is that of the tasks that have it.
count_statuses_lem :
    (k : String) (tasks : List TaskRow) (buckets : Dict String ℕ)
    → bucket_count (get k (count_statuses tasks buckets))
      ≡ bucket_count (get k buckets) + count_if (λ t. or_unknown t.status == k) tasks
unfolding count_statuses
count_statuses_lem k [] buckets = omega arith
count_statuses_lem k (t ∷ tasks) buckets =
    let key = or_unknown t.status in
    let count = bucket_count (get key buckets) + 1 in
    let rest = count_statuses_lem k tasks (put key count buckets) in
    elim (Bool-cases (key == k)) [
      | inl e ↦
          let same = ap (λ j. bucket_count (get j buckets)) ((eq_iff key k).0 e) in
          rw (rest, get-put key k count buckets, e) (omega (arith, same))
      | inr e ↦ rw (rest, get-put key k count buckets, e) (omega arith)
    ]

-- The rows are SUCCEEDED as often as tasks were executed, FAILED as often as they failed, and nothing
-- else.
abbrev AreCounted : List TaskRow → RunState → Type 0
AreCounted rows s =
    (count_if (λ t. or_unknown t.status == "SUCCEEDED") rows ≡ s.executed)
    × (count_if (λ t. or_unknown t.status == "FAILED") rows ≡ s.failed)
    × (s.executed + s.failed ≡ length rows)

add_ended-AreCounted :
    (t : TaskRow) (end : Ended) (s : RunState)
    → IsEnd t end
    → AreCounted s.rows s
    → AreCounted (add_ended end s).rows (add_ended end s)
unfolding add_ended
add_ended-AreCounted t end s (_, _, _, status) h =
    let hits =
      sum_of-append (λ r. if or_unknown r.status == "SUCCEEDED" then 1 else 0) s.rows
        (end.row ∷ []) in
    let misses =
      sum_of-append (λ r. if or_unknown r.status == "FAILED" then 1 else 0) s.rows (end.row ∷ []) in
    let counted = length-append s.rows (end.row ∷ []) in
    elim (Bool-cases end.succeeded) [
      | inl e ↦
          let status' : end.row.status ≡ "SUCCEEDED" = status ∙ rw e in
          rw e (
            hits ∙ rw status' (omega (arith, h.0)),
            misses ∙ rw status' (omega (arith, h.1)),
            omega (arith, counted, h.2),
          )
      | inr e ↦
          let status' : end.row.status ≡ "FAILED" = status ∙ rw e in
          rw e (
            hits ∙ rw status' (omega (arith, h.0)),
            misses ∙ rw status' (omega (arith, h.1)),
            omega (arith, counted, h.2),
          )
    ]

-- The status report of these rows.
abbrev pub IsReported : List TaskRow → RunState → Type 0
IsReported rows s =
    (bucket_count (get "SUCCEEDED" (status_buckets rows)) ≡ s.executed)
    × (bucket_count (get "FAILED" (status_buckets rows)) ≡ s.failed)
    × (s.executed + s.failed ≡ length rows)

AreCounted-IsReported : (rows : List TaskRow) (s : RunState) → AreCounted rows s → IsReported rows s
unfolding status_buckets get
AreCounted-IsReported rows s (hits, misses, all) = (
  omega (arith, count_statuses_lem "SUCCEEDED" rows [], hits),
  omega (arith, count_statuses_lem "FAILED" rows [], misses),
  all,
)

module _ (subprocess : (call : ℕ) → List Text → Process) (dry_run : Bool) where
  -- The outcome of the loop over the tasks, where the rows of the tasks before them are given.
  abbrev pub Leaves :
      (Counts : List TaskRow → RunState → Type 0) (earlier tasks : List TaskRow)
      → RunOutcome
      → Type 0
  Leaves Counts earlier tasks (returned s) =
      Counts s.rows s × (map (λ t. t.task) s.rows ≡ map (λ t. t.task) (earlier ++ tasks))
  Leaves Counts earlier tasks (interrupted err s) =
      (before : List TaskRow) × (t : TaskRow) × (after : List TaskRow) × (done : List TaskRow)
      × (tasks ≡ before ++ t ∷ after)
      × (s.rows ≡ done ++ record t { status = "RUNNING"; attempts = t.attempts + 1 } ∷ after)
      × (map (λ t. t.task) done ≡ map (λ t. t.task) (earlier ++ before))
      × Counts done s
      × ((call : ℕ) × (cmd : List Text) × (is_uncaught (subprocess call cmd) ≡ true))

  same_tasks :
      (earlier : List TaskRow) (row t : TaskRow) (tasks : List TaskRow)
      → row.task ≡ t.task
      → map (λ t. t.task) ((earlier ++ row ∷ []) ++ tasks)
        ≡ map (λ t. t.task) (earlier ++ t ∷ tasks)
  same_tasks [] row t tasks e = ap (λ x. x ∷ map (λ t. t.task) tasks) e
  same_tasks (r ∷ earlier) row t tasks e = ap (◌∷◌ r.task) (same_tasks earlier row t tasks e)

  Leaves-next :
      (earlier tasks : List TaskRow) (row t : TaskRow) (o : RunOutcome)
      → row.task ≡ t.task
      → Leaves AreCounted (earlier ++ row ∷ []) tasks o
      → Leaves AreCounted earlier (t ∷ tasks) o
  Leaves-next earlier tasks row t (returned s) e (counted, same) =
      (counted, same ∙ same_tasks earlier row t tasks e)
  Leaves-next earlier tasks row t (interrupted err s) e
        (before, at, after, done, split, rows, same, counted, cause) =
      (
        t ∷ before,
        at,
        after,
        done,
        ap (◌∷◌ t) split,
        rows,
        same ∙ same_tasks earlier row t before e,
        counted,
        cause,
      )

  run_tasks-Leaves :
      (call : ℕ) (tasks : List TaskRow) (s : RunState)
      → AreCounted s.rows s
      → Leaves AreCounted s.rows tasks (run_tasks subprocess true dry_run call tasks s)
  unfolding run_tasks run_task add_ended add_running running_row
  run_tasks-Leaves call [] s h = (h, ap (map (λ t. t.task)) (sym (append-nil s.rows)))
  run_tasks-Leaves call (t ∷ tasks) s h =
      let cmd = full_command dry_run t in
      elim (end_task_cases cmd (running_row t) (subprocess call cmd)) [
        | inl (end, e, is_end) ↦
            subst (Leaves AreCounted s.rows (t ∷ tasks))
              (sym (
                run_tasks-returned subprocess dry_run true call t tasks s (add_ended end s)
                  (rw e refl)))
              (Leaves-next s.rows tasks end.row t
                (run_tasks subprocess true dry_run (call + 1) tasks (add_ended end s)) is_end.0
                (run_tasks-Leaves (call + 1) tasks (add_ended end s)
                  (add_ended-AreCounted (running_row t) end s is_end h)))
        | inr (err, e, wild) ↦
            subst (Leaves AreCounted s.rows (t ∷ tasks))
              (sym (
                run_tasks-interrupted subprocess dry_run true call t tasks s (add_running t s) err
                  (rw e refl)))
              (
                [],
                t,
                tasks,
                s.rows,
                refl,
                append_assoc s.rows _ tasks,
                ap (map (λ t. t.task)) (sym (append-nil s.rows)),
                h,
                (call, cmd, wild),
              )
      ]

  Leaves-IsReported :
      (tasks : List TaskRow) (o : RunOutcome)
      → Leaves AreCounted [] tasks o
      → Leaves IsReported [] tasks o
  Leaves-IsReported tasks (returned s) (counted, same) =
      (AreCounted-IsReported s.rows s counted, same)
  Leaves-IsReported tasks (interrupted err s)
        (before, t, after, done, split, rows, same, counted, cause) =
      (before, t, after, done, split, rows, same, AreCounted-IsReported done s counted, cause)

  -- A run with `--execute` of a plan whose table exists either returns, and then all its tasks ended: the
  -- status report counts as SUCCEEDED the executed ones and as FAILED the failed ones, and these are all.
  -- Or an exception of a process that the code does not catch cuts it off at one task: the tasks before
  -- it ended and are reported in the same way, that task is left RUNNING with one more attempt, and the
  -- tasks after it are as they were.
  pub run-status_buckets :
      (plan_id : Text) (rows : List TaskRow)
      → (o : RunOutcome) × (run subprocess true dry_run plan_id (some rows) ≡ some o)
        × Leaves IsReported [] (tasks_of plan_id rows) o
  unfolding run run_start
  run-status_buckets plan_id rows = (
    run_tasks subprocess true dry_run 0 (tasks_of plan_id rows) run_start,
    refl,
    Leaves-IsReported (tasks_of plan_id rows) _
        (run_tasks-Leaves 0 (tasks_of plan_id rows) run_start (refl, refl, refl)),
  )
