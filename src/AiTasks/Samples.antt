-- ===== src/AiTasks/Samples.antt =====
-- Jobs that end, at concrete statuses.
use robot_data_harness.Common.{◌≡◌, ◌≢◌, refl, true}
use robot_data_harness.AiTasks.{JobStatus, retrying, succeeded, failed, is_terminal}
use robot_data_harness.AiTasks.Transitions.{Reach, here, IsFinal, Reach-settled, Reach-end}

not_failed : succeeded ≢ failed
not_failed e = cc

Reach-settled_example : succeeded ≡ succeeded
unfolding is_terminal
Reach-settled_example = Reach-settled {s = succeeded} refl not_failed here

Reach-end_example : (t : JobStatus) × Reach retrying t × (is_terminal t ≡ true) × IsFinal t
Reach-end_example = Reach-end retrying tt
