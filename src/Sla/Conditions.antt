-- ===== src/Sla/Conditions.antt =====
-- What each condition of a policy finds.
use mathlib.Core.List.{append-nil}
use robot_data_harness.Common.{
  ℕ, ◌≡◌, refl, sym, inl, inr, Bool, true, false, ◌||◌, Option, none, some, List, [], ◌∷◌, ◌++◌,
  Text, ltb, Bool-cases, arith, if◌then◌else◌,
}
use robot_data_harness.Sla.{
  RateOrder, Status, pass, warn, fail, Reason, missing_outputs, failed_workflows_above,
  FailedReason, joined, policy_violated, missing_inputs, Findings, check_missing, check_rate,
  reason_or, check_workflows,
}

abbrev pub some_listed {ℓ} : {A : Type ℓ} → List A → Bool
some_listed [] = false
some_listed (x ∷ xs) = true

-- The things that the reason lists.
abbrev pub listed : {Rate : Type 0} → Option (FailedReason Rate) → List (Reason Rate)
listed none = []
listed (some (joined r rs)) = r ∷ rs
listed (some policy_violated) = []
listed (some missing_inputs) = []

-- FAIL for a violation, else WARN for an input that is missing, else PASS.
abbrev pub status_for : (violated unknown : Bool) → Status
status_for true unknown = fail
status_for false true = warn
status_for false false = pass

abbrev pub is_unknown : {Rate : Type 0} (rate threshold : Option Rate) → Bool
is_unknown rate none = false
is_unknown none (some threshold) = true
is_unknown (some rate) (some threshold) = false

abbrev pub is_exceeded : (count : ℕ) (threshold : Option ℕ) → Bool
is_exceeded count none = false
is_exceeded count (some threshold) = ltb threshold count

module _ (rates : RateOrder) where
  open rates use {Rate, below}

  abbrev pub is_low : (rate threshold : Option Rate) → Bool
  is_low rate none = false
  is_low none (some threshold) = false
  is_low (some rate) (some threshold) = below rate threshold

  -- What each condition of a policy adds to the reasons.
  abbrev pub output_reasons : (missing : List Text) → List (Reason Rate)
  output_reasons [] = []
  output_reasons (o ∷ outputs) = missing_outputs (o ∷ outputs) ∷ []

  abbrev pub rate_reasons :
      Reason Rate
      → (Rate → Rate → Reason Rate)
      → (rate threshold : Option Rate) → List (Reason Rate)
  rate_reasons absent low rate none = []
  rate_reasons absent low none (some threshold) = absent ∷ []
  rate_reasons absent low (some rate) (some threshold) =
      if below rate threshold then low rate threshold ∷ [] else []

  abbrev pub workflow_reasons : (count : ℕ) (threshold : Option ℕ) → List (Reason Rate)
  workflow_reasons count none = []
  workflow_reasons count (some threshold) =
      if ltb threshold count then failed_workflows_above count threshold ∷ [] else []

  -- The step finds these reasons, and sets the flags for them.
  abbrev pub Finds :
      Findings Rate → List (Reason Rate) → (hard soft : Bool) → Findings Rate → Type 0
  Finds f rs hard soft f' =
      (f'.reasons ≡ f.reasons ++ rs)
      × (f'.failing ≡ (f.failing || hard))
      × (f'.warning ≡ (f.warning || soft))

  pub check_missing-Finds :
      (missing : List Text) (f : Findings Rate)
      → Finds f (output_reasons missing) (some_listed missing) false (check_missing rates missing f)
  unfolding check_missing
  check_missing-Finds [] f = (sym (append-nil _), ground arith, ground arith)
  check_missing-Finds (o ∷ outputs) f = (refl, ground arith, ground arith)

  pub check_rate-Finds :
      (absent : Reason Rate) (low : Rate → Rate → Reason Rate) (rate threshold : Option Rate)
      (f : Findings Rate)
      → Finds f
          (rate_reasons absent low rate threshold)
          (is_low rate threshold)
          (is_unknown rate threshold)
          (check_rate rates absent low rate threshold f)
  unfolding check_rate
  check_rate-Finds absent low rate none f = (sym (append-nil _), ground arith, ground arith)
  check_rate-Finds absent low none (some t) f = (refl, ground arith, ground arith)
  check_rate-Finds absent low (some r) (some t) f = elim (Bool-cases (below r t)) [
    | inl e ↦ rw e (refl, ground arith, ground arith)
    | inr e ↦ rw e (sym (append-nil _), ground arith, ground arith)
  ]

  pub check_workflows-Finds :
      (count : ℕ) (threshold : Option ℕ) (f : Findings Rate)
      → Finds f
          (workflow_reasons count threshold)
          (is_exceeded count threshold)
          false
          (check_workflows rates count threshold f)
  unfolding check_workflows
  check_workflows-Finds count none f = (sym (append-nil _), ground arith, ground arith)
  check_workflows-Finds count (some t) f = elim (Bool-cases (ltb t count)) [
    | inl e ↦ rw e (refl, ground arith, ground arith)
    | inr e ↦ rw e (sym (append-nil _), ground arith, ground arith)
  ]

  pub listed-reason_or :
      (default : FailedReason Rate) (rs : List (Reason Rate))
      → listed (some default) ≡ []
      → listed (some (reason_or rates default rs)) ≡ rs
  listed-reason_or default [] h = h
  listed-reason_or default (r ∷ rs) h = refl

  pub nothing_listed : (rs : List (Reason Rate)) → some_listed rs ≡ false → [] ≡ rs
  nothing_listed [] h = refl
  nothing_listed (r ∷ rs) h = cc
