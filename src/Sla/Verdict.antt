-- ===== src/Sla/Verdict.antt =====
-- The verdict of a policy and its reasons.
use robot_data_harness.Common.{
  ℕ, ◌≡◌, refl, ap, ap₂, ◌∙◌, inl, inr, Bool, true, false, not, ◌||◌, Option, none, some, List, [],
  ◌∷◌, ◌++◌, Text, ltb, Bool-cases, arith,
}
use mathlib.Core.List.{append_assoc}
use robot_data_harness.Sla.{
  RateOrder, SlaPolicy, Status, pass, warn, fail, Reason, missing_outputs, FailedReason, joined,
  policy_violated, missing_inputs, Findings, check_missing, check_rate, reason_or, check_workflows,
  verdict_of, evaluate, qc_pass_rate_null, qc_pass_rate_below, etl_success_rate_null,
  etl_success_rate_below,
}
use robot_data_harness.Sla.Conditions.{
  some_listed, listed, status_for, is_unknown, is_exceeded, is_low, output_reasons, rate_reasons,
  workflow_reasons, check_missing-Finds, check_rate-Finds, check_workflows-Finds, listed-reason_or,
  nothing_listed,
}

abbrev pub is_pass : Status → Bool
is_pass pass = true
is_pass warn = false
is_pass fail = false

-- The reason is a list of what was found, not one of the fixed texts.
abbrev pub is_explained : {Rate : Type 0} → Option (FailedReason Rate) → Bool
is_explained none = false
is_explained (some (joined r rs)) = true
is_explained (some policy_violated) = false
is_explained (some missing_inputs) = false

abbrev pub has_reason : {Rate : Type 0} → Option (FailedReason Rate) → Bool
has_reason none = false
has_reason (some reason) = true

append_three {ℓ} : {A : Type ℓ} (a b c d : List A) → ((a ++ b) ++ c) ++ d ≡ a ++ (b ++ (c ++ d))
append_three a b c d = append_assoc (a ++ b) c d ∙ append_assoc a b (c ++ d)

module _ (rates : RateOrder) where
  open rates use {Rate, below}

  -- A flag is set exactly when there is a reason.
  abbrev IsFlagged : Findings Rate → Type 0
  IsFlagged f = (f.failing || f.warning) ≡ some_listed f.reasons

  listed-append : (rs : List (Reason Rate)) (r : Reason Rate) → some_listed (rs ++ r ∷ []) ≡ true
  listed-append [] r = refl
  listed-append (q ∷ rs) r = refl

  check_rate-IsFlagged :
      (absent : Reason Rate) (low : Rate → Rate → Reason Rate) (rate threshold : Option Rate)
      (f : Findings Rate)
      → IsFlagged f
      → IsFlagged (check_rate rates absent low rate threshold f)
  unfolding check_rate
  check_rate-IsFlagged absent low rate none f h = h
  check_rate-IsFlagged absent low none (some t) f h = ground (arith, listed-append f.reasons absent)
  check_rate-IsFlagged absent low (some r) (some t) f h = elim (Bool-cases (below r t)) [
    | inl e ↦ rw e (ground (arith, listed-append f.reasons (low r t)))
    | inr e ↦ rw e h
  ]

  check_missing-IsFlagged :
      (missing : List Text) (f : Findings Rate)
      → IsFlagged f
      → IsFlagged (check_missing rates missing f)
  unfolding check_missing
  check_missing-IsFlagged [] f h = h
  check_missing-IsFlagged (o ∷ outputs) f h =
      ground (arith, listed-append f.reasons (missing_outputs (o ∷ outputs)))

  check_workflows-IsFlagged :
      (count : ℕ) (threshold : Option ℕ) (f : Findings Rate)
      → IsFlagged f
      → IsFlagged (check_workflows rates count threshold f)
  unfolding check_workflows
  check_workflows-IsFlagged count none f h = h
  check_workflows-IsFlagged count (some t) f h = elim (Bool-cases (ltb t count)) [
    | inl e ↦ rw e (ground (arith, listed-append f.reasons _))
    | inr e ↦ rw e h
  ]

  reason_or-explained :
      (default : FailedReason Rate) (rs : List (Reason Rate))
      → some_listed rs ≡ true
      → is_explained (some (reason_or rates default rs)) ≡ true
  reason_or-explained default [] h = cc
  reason_or-explained default (r ∷ rs) h = refl

  verdict_of-explained :
      (f : Findings Rate)
      → IsFlagged f
      → (is_explained (verdict_of rates f).1 ≡ not (is_pass (verdict_of rates f).0))
        × (has_reason (verdict_of rates f).1 ≡ not (is_pass (verdict_of rates f).0))
  unfolding verdict_of
  verdict_of-explained f h = elim (Bool-cases f.failing) [
    | inl e ↦ rw e (reason_or-explained policy_violated f.reasons (ground (arith, h, e)), refl)
    | inr e ↦ elim (Bool-cases f.warning) [
      | inl e' ↦
          rw (e, e') (reason_or-explained missing_inputs f.reasons (ground (arith, h, e, e')), refl)
      | inr e' ↦ rw (e, e') (refl, refl)
    ]
  ]

  verdict_of-listed :
      (f : Findings Rate)
      → IsFlagged f
      → ((verdict_of rates f).0 ≡ status_for f.failing f.warning)
        × (listed (verdict_of rates f).1 ≡ f.reasons)
  unfolding verdict_of
  verdict_of-listed f h = elim (Bool-cases f.failing) [
    | inl e ↦ rw e (refl, listed-reason_or rates policy_violated f.reasons refl)
    | inr e ↦ elim (Bool-cases f.warning) [
      | inl e' ↦ rw (e, e') (refl, listed-reason_or rates missing_inputs f.reasons refl)
      | inr e' ↦ rw (e, e') (refl, nothing_listed rates f.reasons (ground (arith, h, e, e')))
    ]
  ]

  -- A check lists in its reason everything that it found, in the order of the policy's conditions: the
  -- missing outputs, then each rate that is missing or below its threshold, then too many failed
  -- workflows. It FAILs for missing outputs, a rate that is too low or too many workflows, else WARNs for
  -- a rate that is missing, else PASSes. A check that does not PASS never falls back on a fixed text, and
  -- a check that passes has no reason.
  pub evaluate-explained :
      (policy : SlaPolicy Rate) (qc_rate etl_rate : Option Rate) (failed_workflows : ℕ)
      (missing : List Text)
      → let (status, reason) = evaluate rates policy qc_rate etl_rate failed_workflows missing in
        let qc_min = policy.min_qc_pass_rate in
        let etl_min = policy.min_etl_success_rate in
        let most = policy.max_failed_workflows in
        (listed reason
          ≡ output_reasons rates missing
            ++ (rate_reasons rates qc_pass_rate_null qc_pass_rate_below qc_rate qc_min
                ++ (rate_reasons rates etl_success_rate_null etl_success_rate_below etl_rate etl_min
                    ++ workflow_reasons rates failed_workflows most)))
        × (status
            ≡ status_for
                (some_listed missing
                  || (is_low rates qc_rate qc_min
                      || (is_low rates etl_rate etl_min || is_exceeded failed_workflows most)))
                (is_unknown qc_rate qc_min || is_unknown etl_rate etl_min))
        × (is_explained reason ≡ not (is_pass status))
        × (has_reason reason ≡ not (is_pass status))
  unfolding evaluate
  evaluate-explained policy qc_rate etl_rate failed_workflows missing =
      let qc_min = policy.min_qc_pass_rate in
      let etl_min = policy.min_etl_success_rate in
      let most = policy.max_failed_workflows in
      let start : Findings Rate = record { reasons = []; failing = false; warning = false } in
      let f = check_missing rates missing start in
      let g = check_rate rates qc_pass_rate_null qc_pass_rate_below qc_rate qc_min f in
      let h = check_rate rates etl_success_rate_null etl_success_rate_below etl_rate etl_min g in
      let k = check_workflows rates failed_workflows most h in
      let (rs, hard, soft) = check_missing-Finds rates missing start in
      let (rs', hard', soft') =
        check_rate-Finds rates qc_pass_rate_null qc_pass_rate_below qc_rate qc_min f in
      let (rs'', hard'', soft'') =
        check_rate-Finds rates etl_success_rate_null etl_success_rate_below etl_rate etl_min g in
      let (rs4, hard4, soft4) = check_workflows-Finds rates failed_workflows most h in
      let flagged = check_workflows-IsFlagged failed_workflows most h (
        check_rate-IsFlagged etl_success_rate_null etl_success_rate_below etl_rate etl_min g (
          check_rate-IsFlagged qc_pass_rate_null qc_pass_rate_below qc_rate qc_min f
            (check_missing-IsFlagged missing start refl))) in
      let (status, reasons) = verdict_of-listed k flagged in
      let (explained, reason) = verdict_of-explained k flagged in
      let qc = rate_reasons rates qc_pass_rate_null qc_pass_rate_below qc_rate qc_min in
      let etl = rate_reasons rates etl_success_rate_null etl_success_rate_below etl_rate etl_min in
      let workflows = workflow_reasons rates failed_workflows most in
      let found =
        rs4
        ∙ (ap (λ l. l ++ workflows) (rs'' ∙ ap (λ l. l ++ etl) (rs' ∙ ap (λ l. l ++ qc) rs))
            ∙ append_three (output_reasons rates missing) qc etl workflows) in
      (
        reasons ∙ found,
        status
            ∙ ap₂ status_for (ground (arith, hard, hard', hard'', hard4))
                (ground (arith, soft, soft', soft'', soft4)),
        explained,
        reason,
      )
