-- ===== src/Backfill/Run.antt =====
-- `BackfillPlanner.run` and `BackfillPlanner.status`. The subprocess is an argument: how it ends may
-- depend on the command and on the call. An exception that the loop does not catch cuts the run off, with
-- what was committed before. Times are left out.
pub mod Counts
pub mod Settled
use robot_data_harness.Common.{
  ℕ, zero, suc, ◌+◌, Bool, true, false, Option, none, some, List, [], ◌∷◌, ◌++◌, map, take, Text,
  text_beq, codes, String, append, Dict, get, put, string_eq, ◌==◌, if◌then◌else◌, select, length,
}
use robot_data_harness.Backfill.Plan.{BackfillTask, TaskRow}

-- The return code of a process: that of its exit, or the signal that ended it.
pub data ReturnCode : Type 0 where
  code signal : ℕ → ReturnCode

pub data Process : Type 0 where
  finished : ReturnCode → (stdout stderr : Text) → Process
  -- TimeoutExpired or OSError
  raised : Text → Process
  -- any other exception of `shlex.split` or `subprocess.run`, as UnicodeDecodeError
  uncaught : Text → Process

pub record TaskOutput : Type 0 where
  pub task_id : Text
  pub status : String
  pub command : List Text
  pub executed : Bool
  pub exit_code : Option ReturnCode
  pub error : Option Text

-- The end of one task: its row, its output, and whether it succeeded.
pub record Ended : Type 0 where
  pub row : TaskRow
  pub output : TaskOutput
  pub succeeded : Bool

pub record RunState : Type 0 where
  pub rows : List TaskRow
  pub executed : ℕ
  pub failed : ℕ
  pub skipped : ℕ
  pub outputs : List TaskOutput
  -- each commit of the session: the task and its status
  pub commits : List (Text × String)

-- What the stored rows and the counters are when the loop ends or an exception leaves it.
pub data RunOutcome : Type 0 where
  returned : RunState → RunOutcome
  interrupted : Text → RunState → RunOutcome

-- How one task leaves the subprocess: with its end committed, or not.
pub data TaskEnd : Type 0 where
  ended : Ended → TaskEnd
  escaped : Text → TaskEnd

abbrev pub is_zero : ReturnCode → Bool
is_zero (code zero) = true
is_zero (code (suc n)) = false
is_zero (signal n) = false

abbrev pub text_first : Text → Text → Text
text_first [] t = t
text_first (c ∷ s) t = c ∷ s

pub full_command : Bool → TaskRow → List Text
full_command dry_run t =
    if dry_run
    then t.task.recommended_command ++ codes "--dry-run" ∷ []
    else t.task.recommended_command

-- status = "RUNNING", and one more attempt
pub running_row : TaskRow → TaskRow
running_row t = record t { status = "RUNNING"; attempts = t.attempts + 1 }

pub end_task : (full_cmd : List Text) → TaskRow → Process → TaskEnd
end_task full_cmd t (finished rc stdout stderr) =
    let status = if is_zero rc then "SUCCEEDED" else "FAILED" in
    ended (record {
      row = record t {
        status = status;
        last_error =
            if is_zero rc then t.last_error else some (take 2000 (text_first stderr stdout));
      };
      output = record {
        task_id = t.task.task_id;
        status = status;
        command = full_cmd;
        executed = true;
        exit_code = some rc;
        error = none;
      };
      succeeded = is_zero rc;
    })
end_task full_cmd t (raised err) = ended (record {
  row = record t { status = "FAILED"; last_error = some (take 2000 err) };
  output = record {
    task_id = t.task.task_id;
    status = "FAILED";
    command = full_cmd;
    executed = true;
    exit_code = none;
    error = some err;
  };
  succeeded = false;
})
end_task full_cmd t (uncaught err) = escaped err

-- The row and the output of a task whose end was committed.
pub add_ended : Ended → RunState → RunState
add_ended end s = record {
  rows = s.rows ++ end.row ∷ [];
  executed = if end.succeeded then s.executed + 1 else s.executed;
  failed = if end.succeeded then s.failed else s.failed + 1;
  skipped = s.skipped;
  outputs = s.outputs ++ end.output ∷ [];
  commits =
      s.commits ++ (end.row.task.task_id, "RUNNING") ∷ (end.row.task.task_id, end.row.status) ∷ [];
}

-- The row of a task that was running when the exception came.
pub add_running : TaskRow → RunState → RunState
unfolding running_row
add_running t s = record s {
  rows = s.rows ++ running_row t ∷ [];
  commits = s.commits ++ (t.task.task_id, "RUNNING") ∷ [];
}

-- What a task does to the run.
abbrev pub after_task : TaskRow → RunState → TaskEnd → RunOutcome
after_task t s (ended end) = returned (add_ended end s)
after_task t s (escaped err) = interrupted err (add_running t s)

-- The rows of the tasks that the loop did not come to stay as they were.
abbrev pub keep_rest : List TaskRow → RunState → RunState
keep_rest tasks s = record s { rows = s.rows ++ tasks }

pub run_start : RunState
run_start = record { rows = []; executed = 0; failed = 0; skipped = 0; outputs = []; commits = [] }

-- select(BackfillTaskRow).where(BackfillTaskRow.plan_id == plan_id)
unfoldable pub tasks_of : (plan_id : Text) → List TaskRow → List TaskRow
tasks_of plan_id = select (λ t. text_beq t.task.plan_id plan_id)

module _ (subprocess : (call : ℕ) → List Text → Process) (execute dry_run : Bool) where
  pub run_task : (call : ℕ) → TaskRow → RunState → RunOutcome
  unfolding full_command running_row end_task add_ended add_running
  run_task call t s =
      let full_cmd = full_command dry_run t in
      let end = end_task full_cmd (running_row t) (subprocess call full_cmd) in
      let would_run : TaskOutput = record {
        task_id = t.task.task_id;
        status = t.status;
        command = t.task.recommended_command;
        executed = false;
        exit_code = none;
        error = none;
      } in
      if execute
      then after_task t s end
      else (returned (record s {
        rows = s.rows ++ t ∷ [];
        skipped = s.skipped + 1;
        outputs = s.outputs ++ would_run ∷ [];
      }))

  -- The loop over the tasks, which an exception leaves.
  pub run_tasks : (call : ℕ) → List TaskRow → RunState → RunOutcome
  unfolding run_task
  run_tasks call [] s = returned s
  run_tasks call (t ∷ tasks) s = elim (run_task call t s) [
    | returned s' ↦ run_tasks (call + 1) tasks s'
    | interrupted err s' ↦ interrupted err (keep_rest tasks s')
  ]

  -- The tasks of the plan; a plan without tasks ends at once, with the same result. `none` is the
  -- RuntimeError of a missing table.
  unfoldable pub run : (plan_id : Text) → Option (List TaskRow) → Option RunOutcome
  unfolding run_tasks run_start tasks_of
  run plan_id none = none
  run plan_id (some rows) = some (run_tasks 0 (tasks_of plan_id rows) run_start)

abbrev pub or_unknown : String → String
or_unknown s = if s == "" then "UNKNOWN" else s

abbrev pub bucket_count : Option ℕ → ℕ
bucket_count none = 0
bucket_count (some n) = n

-- The counts of the statuses.
pub count_statuses : List TaskRow → Dict String ℕ → Dict String ℕ
count_statuses [] buckets = buckets
count_statuses (t ∷ tasks) buckets =
    let key = or_unknown t.status in
    count_statuses tasks (put key (bucket_count (get key buckets) + 1) buckets)

unfoldable pub status_buckets : List TaskRow → Dict String ℕ
unfolding count_statuses
status_buckets tasks = count_statuses tasks []
