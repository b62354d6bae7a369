-- ===== src/AiTasks.antt =====
-- src/robot_dh/ai_tasks/state.py: the states of an inference job, and the verdict on a finished one.
pub mod Transitions
mod Samples
use robot_data_harness.Common.{
  ℕ, Bool, true, false, ◌||◌, List, [], ◌∷◌, ltb, String, if◌then◌else◌,
}

-- The eight known statuses; any other text is `other`.
pub data JobStatus : Type 0 where
  created queued running succeeded failed retrying cancelled dead_letter : JobStatus
  other : String → JobStatus

pub terminal_statuses : List JobStatus
terminal_statuses = succeeded ∷ failed ∷ cancelled ∷ dead_letter ∷ []

-- VALID_TRANSITIONS.get(src, set())
unfoldable pub valid_transitions : JobStatus → List JobStatus
valid_transitions created = queued ∷ running ∷ cancelled ∷ []
valid_transitions queued = running ∷ cancelled ∷ []
valid_transitions running = succeeded ∷ failed ∷ retrying ∷ cancelled ∷ []
valid_transitions retrying = running ∷ failed ∷ dead_letter ∷ cancelled ∷ []
valid_transitions failed = retrying ∷ dead_letter ∷ []
valid_transitions succeeded = []
valid_transitions cancelled = []
valid_transitions dead_letter = []
valid_transitions (other _) = []

-- Equality of a status with a known one.
abbrev pub same : JobStatus → JobStatus → Bool
same created created = true
same queued queued = true
same running running = true
same succeeded succeeded = true
same failed failed = true
same retrying retrying = true
same cancelled cancelled = true
same dead_letter dead_letter = true
same _ _ = false

abbrev pub contains : JobStatus → List JobStatus → Bool
contains s [] = false
contains s (t ∷ ts) = same s t || contains s ts

unfoldable pub can_transition : JobStatus → JobStatus → Bool
unfolding valid_transitions
can_transition src dst = contains dst (valid_transitions src)

unfoldable pub is_terminal : JobStatus → Bool
unfolding terminal_statuses
is_terminal status = contains status terminal_statuses

-- Floating-point rates, of which only division of counts and comparison are used.
pub record Rates : Type 1 where
  pub Rate : Type 0
  pub zero_rate : Rate
  pub one_rate : Rate
  pub ratio : ℕ → ℕ → Rate
  pub exceeds : Rate → Rate → Bool

pub record JobOutcome (Rate : Type 0) : Type 0 where
  pub status : JobStatus
  pub warn : Bool
  pub exit_code : ℕ
  pub error_rate : Rate

module _ (rates : Rates) where
  open rates use {Rate, zero_rate, one_rate, ratio, exceeds}

  pub error_rate_of : (total failed : ℕ) → Rate
  error_rate_of total failures =
      if ltb 0 total then ratio failures total else if ltb 0 failures then one_rate else zero_rate

  unfoldable pub evaluate_job_outcome :
      (total failed : ℕ) (max_error_rate : Rate) (fail_fast_triggered : Bool) → JobOutcome Rate
  unfolding error_rate_of
  evaluate_job_outcome total failures max_error_rate triggered =
      let rate = error_rate_of total failures in
      if triggered || exceeds rate max_error_rate
      then record { status = failed; warn = false; exit_code = 1; error_rate = rate }
      else record { status = succeeded; warn = ltb 0 failures; exit_code = 0; error_rate = rate }
