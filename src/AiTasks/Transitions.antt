-- ===== src/AiTasks/Transitions.antt =====
-- The graph of the job statuses that VALID_TRANSITIONS allows. The table is there to check with, and the
-- program does not force a job to keep to it.
use robot_data_harness.Common.{◌≡◌, ◌≢◌, subst, refl, true, false}
use robot_data_harness.AiTasks.{
  JobStatus, created, queued, running, succeeded, failed, retrying, cancelled, dead_letter, other,
  can_transition, is_terminal,
}

-- The statuses that a job of this status can come to by allowed transitions.
pub data Reach (s : JobStatus) : JobStatus → Type 0 where
  here : Reach s s
  next : {t u : JobStatus} → Reach s t → can_transition t u ≡ true → Reach s u

-- A status that no transition leaves.
abbrev pub IsFinal : JobStatus → Type 0
IsFinal s = (t : JobStatus) → can_transition s t ≡ false

-- A transition out of a terminal status starts at FAILED.
terminal_exit : (s t : JobStatus) → is_terminal s ≡ true → can_transition s t ≡ true → s ≡ failed
unfolding is_terminal can_transition
terminal_exit failed t h k = refl
terminal_exit created t h k = cc
terminal_exit queued t h k = cc
terminal_exit running t h k = cc
terminal_exit retrying t h k = cc
terminal_exit succeeded t h k = cc
terminal_exit cancelled t h k = cc
terminal_exit dead_letter t h k = cc
terminal_exit (other _) t h k = cc

-- No path of transitions that the table allows leads from SUCCEEDED, CANCELLED or DEAD_LETTER to another
-- status: of the terminal statuses only FAILED is left by such transitions.
pub Reach-settled : {s t : JobStatus} → is_terminal s ≡ true → s ≢ failed → Reach s t → t ≡ s
Reach-settled h settled here = refl
Reach-settled {s} h settled (next {t} {u} r e) =
    let stayed = Reach-settled h settled r in
    absurd (settled (terminal_exit s u h (subst (λ x. can_transition x u ≡ true) stayed e)))

-- The job is in one of the eight statuses of the program.
abbrev pub IsKnown : JobStatus → Type 0
IsKnown (other _) = ⊥
IsKnown _ = Unit

succeeded-IsFinal : IsFinal succeeded
unfolding can_transition
succeeded-IsFinal t = refl

dead_letter-IsFinal : IsFinal dead_letter
unfolding can_transition
dead_letter-IsFinal t = refl

cancelled-IsFinal : IsFinal cancelled
unfolding can_transition
cancelled-IsFinal t = refl

-- From every known status a terminal status can be reached that no transition leaves.
pub Reach-end :
    (s : JobStatus) → IsKnown s → (t : JobStatus) × Reach s t × (is_terminal t ≡ true) × IsFinal t
unfolding can_transition is_terminal
Reach-end created k = (succeeded, next {t = running} (next here refl) refl, refl, succeeded-IsFinal)
Reach-end queued k = (succeeded, next {t = running} (next here refl) refl, refl, succeeded-IsFinal)
Reach-end running k = (succeeded, next here refl, refl, succeeded-IsFinal)
Reach-end succeeded k = (succeeded, here, refl, succeeded-IsFinal)
Reach-end failed k = (dead_letter, next here refl, refl, dead_letter-IsFinal)
Reach-end retrying k = (dead_letter, next here refl, refl, dead_letter-IsFinal)
Reach-end cancelled k = (cancelled, here, refl, cancelled-IsFinal)
Reach-end dead_letter k = (dead_letter, here, refl, dead_letter-IsFinal)
Reach-end (other _) k = absurd k
