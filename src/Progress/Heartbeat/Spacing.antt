-- ===== src/Progress/Heartbeat/Spacing.antt =====
-- How often a reporter sends its beats, and that none is lost.
use robot_data_harness.Common.{
  ℕ, ◌+◌, ◌≤◌, ◌≡◌, refl, sym, ◌∙◌, inl, inr, false, List, [], ◌∷◌, if◌then◌else◌, All, Bool-cases,
  arith,
}
use robot_data_harness.Progress.Heartbeat.{
  HeartbeatReporter, Beat, Answers, emit, maybe_emit, is_early, write_jsonl,
}

-- A call of maybe_emit without force at a time of the clock.
pub record Attempt (Metrics : Type 0) : Type 0 where
  pub now : ℕ
  pub beat : Beat Metrics
  pub world : Answers

-- Each time is at least the interval behind the one before it.
abbrev pub IsSpaced : ℕ → ℕ → List ℕ → Type 0
IsSpaced interval last [] = Unit
IsSpaced interval last (t ∷ times) = (last + interval ≤ t) × IsSpaced interval t times

module _ {Metrics : Type 0} (empty : Metrics) where
  -- The times of the calls that sent a beat.
  unfoldable pub beat_times : List (Attempt Metrics) → HeartbeatReporter Metrics → List ℕ
  beat_times [] reporter = []
  beat_times (a ∷ attempts) reporter =
      let (sent, reporter', beats) = maybe_emit empty false a.now a.beat a.world reporter in
      let rest = beat_times attempts reporter' in if sent then a.now ∷ rest else rest

  -- No clock shows an earlier time at the end of a beat than at its start.
  abbrev pub EndsLater : Attempt Metrics → Type 0
  EndsLater a = a.now ≤ a.world.ended_at

  emit-interval_sec :
      (beat : Beat Metrics) (world : Answers) (reporter : HeartbeatReporter Metrics)
      → (emit empty beat world reporter).0.interval_sec ≡ reporter.interval_sec
  unfolding emit write_jsonl
  emit-interval_sec beat world reporter = elim (Bool-cases world.jsonl_works) [
    | inl e ↦ rw e refl
    | inr e ↦ rw e refl
  ]

  emit-last_emit :
      (beat : Beat Metrics) (world : Answers) (reporter : HeartbeatReporter Metrics)
      → (emit empty beat world reporter).0.last_emit ≡ world.ended_at
  unfolding emit
  emit-last_emit beat world reporter = refl

  due-le :
      (now : ℕ) (reporter : HeartbeatReporter Metrics)
      → 1 ≤ reporter.interval_sec
      → is_early now reporter ≡ false
      → reporter.last_emit + reporter.interval_sec ≤ now
  due-le now reporter p e = ground (arith, e, p)

  IsSpaced-from :
      (attempts : List (Attempt Metrics)) (reporter : HeartbeatReporter Metrics) (interval last : ℕ)
      → interval ≡ reporter.interval_sec
      → All EndsLater attempts
      → last ≤ reporter.last_emit
      → 1 ≤ interval
      → IsSpaced interval last (beat_times attempts reporter)
  unfolding beat_times maybe_emit
  IsSpaced-from [] reporter interval last i h l p = tt
  IsSpaced-from (a ∷ attempts) reporter interval last i h l p =
      elim (Bool-cases (is_early a.now reporter)) [
        | inl e ↦ rw e (IsSpaced-from attempts reporter interval last i h.1 l p)
        | inr e ↦
            let due = due-le a.now reporter (omega (arith, p, i)) e in
            let next = (emit empty a.beat a.world reporter).0 in
            rw e (
              omega (arith, due, l, i),
              IsSpaced-from attempts next interval a.now
                  (i ∙ sym (emit-interval_sec a.beat a.world reporter)) h.1
                  (omega (arith, h.0, emit-last_emit a.beat a.world reporter)) p,
            )
      ]

  -- The beats that a reporter with an interval sends without force are at least the interval apart, also
  -- from the last one before them, when the clock shows no earlier time at the end of a beat than at its
  -- start.
  pub beat_times-IsSpaced :
      (attempts : List (Attempt Metrics)) (reporter : HeartbeatReporter Metrics)
      → All EndsLater attempts
      → 1 ≤ reporter.interval_sec
      → IsSpaced reporter.interval_sec reporter.last_emit (beat_times attempts reporter)
  beat_times-IsSpaced attempts reporter h p =
      IsSpaced-from attempts reporter reporter.interval_sec reporter.last_emit refl h (omega arith)
        p
