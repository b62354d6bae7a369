-- ===== src/Sla.antt =====
-- src/robot_dh/quality_ops/sla.py: the datasets that a policy is about, the outputs that it requires and
-- its verdict. `fnmatch`, `str.upper`, `str.lower` and the rates are arguments.
pub mod Scope
pub mod Conditions
pub mod Verdict
mod Samples
use robot_data_harness.Common.{
  ℕ, ◌+◌, Bool, true, false, not, ◌&&◌, ◌||◌, Option, none, some, List, [], ◌∷◌, ◌++◌, Text,
  text_beq, codes, any, count_if, select, ltb, ◌>>=◌, if◌then◌else◌,
}

-- The order of the floating-point rates.
pub record RateOrder : Type 1 where
  pub Rate : Type 0
  pub below : Rate → Rate → Bool

-- The fields that only go into the report are left out.
pub record SlaPolicy (Rate : Type 0) : Type 0 where
  pub dataset_pattern : Option Text
  pub dataset_family : Option Text
  pub required_outputs : List Text
  pub min_qc_pass_rate : Option Rate
  pub min_etl_success_rate : Option Rate
  pub max_failed_workflows : Option ℕ
  pub enabled : Bool

-- What is read of a row of ads_quality_dashboard or dim_dataset.
pub record ScopeRow : Type 0 where
  pub dataset_id : Option Text
  pub version : Option Text
  pub dataset_family : Option Text

pub record Scoped : Type 0 where
  pub dataset_id : Text
  pub version : Text
  pub family : Option Text

-- `if policy.dataset_family and family != policy.dataset_family`
abbrev pub family_fits : Option Text → Option Text → Bool
family_fits none family = true
family_fits (some []) family = true
family_fits (some (c ∷ t)) none = false
family_fits (some (c ∷ t)) (some f) = text_beq f (c ∷ t)

abbrev pub pattern_fits : (Text → Text → Bool) → Option Text → Text → Bool
pattern_fits fnmatch none id = true
pattern_fits fnmatch (some []) id = true
pattern_fits fnmatch (some (c ∷ t)) id = fnmatch id (c ∷ t)

-- `key in seen`
abbrev pub same_key : Scoped → Scoped → Bool
same_key s t = text_beq s.dataset_id t.dataset_id && text_beq s.version t.version

-- The dataset of a row that names its id and its version.
abbrev pub scoped_of : ScopeRow → Option Scoped
scoped_of r = do
  id ← r.dataset_id
  version ← r.version
  some (record { dataset_id = id; version = version; family = r.dataset_family })

module _ {Rate : Type 0} (fnmatch : Text → Text → Bool) (policy : SlaPolicy Rate) where
  pub matches : Scoped → Bool
  matches s =
      family_fits policy.dataset_family s.family
      && pattern_fits fnmatch policy.dataset_pattern s.dataset_id

  -- One dataset: it is added when it matches and its key is not among those that were seen, which are
  -- the keys of the list.
  pub add_scoped : Option Scoped → List Scoped → List Scoped
  unfolding matches
  add_scoped none out = out
  add_scoped (some s) out = if matches s && not (any (same_key s) out) then out ++ s ∷ [] else out

  pub add_scopes : List ScopeRow → List Scoped → List Scoped
  unfolding add_scoped
  add_scopes [] out = out
  add_scopes (r ∷ rows) out = add_scopes rows (add_scoped (scoped_of r) out)

  unfoldable pub select_datasets : (ads_rows dim_rows : List ScopeRow) → List Scoped
  unfolding add_scopes
  select_datasets ads_rows dim_rows = add_scopes dim_rows (add_scopes ads_rows [])

pub data Status : Type 0 where
  pass warn fail : Status

pub data Reason (Rate : Type 0) : Type 0 where
  missing_outputs : List Text → Reason Rate
  qc_pass_rate_null etl_success_rate_null : Reason Rate
  qc_pass_rate_below etl_success_rate_below : (rate threshold : Rate) → Reason Rate
  failed_workflows_above : (count threshold : ℕ) → Reason Rate

-- The text of the reason: the reasons joined, or a fixed text when there are none.
pub data FailedReason (Rate : Type 0) : Type 0 where
  joined : Reason Rate → List (Reason Rate) → FailedReason Rate
  policy_violated missing_inputs : FailedReason Rate

-- The reasons so far with the flags `failing` and `warning`.
pub record Findings (Rate : Type 0) : Type 0 where
  pub reasons : List (Reason Rate)
  pub failing : Bool
  pub warning : Bool

module _ (rates : RateOrder) where
  open rates use {Rate, below}

  abbrev pub fails_for : Reason Rate → Findings Rate → Findings Rate
  fails_for r f = record f { reasons = f.reasons ++ r ∷ []; failing = true }

  abbrev pub warns_for : Reason Rate → Findings Rate → Findings Rate
  warns_for r f = record f { reasons = f.reasons ++ r ∷ []; warning = true }

  pub check_missing : List Text → Findings Rate → Findings Rate
  check_missing [] f = f
  check_missing (o ∷ outputs) f = fails_for (missing_outputs (o ∷ outputs)) f

  -- A threshold on a rate, with the reasons of a missing rate and of one that is too low.
  pub check_rate :
      Reason Rate
      → (Rate → Rate → Reason Rate)
      → (rate threshold : Option Rate) → Findings Rate
      → Findings Rate
  check_rate absent low rate none f = f
  check_rate absent low none (some threshold) f = warns_for absent f
  check_rate absent low (some rate) (some threshold) f =
      if below rate threshold then fails_for (low rate threshold) f else f

  pub check_workflows : ℕ → Option ℕ → Findings Rate → Findings Rate
  check_workflows count none f = f
  check_workflows count (some threshold) f =
      if ltb threshold count then fails_for (failed_workflows_above count threshold) f else f

  abbrev pub reason_or : FailedReason Rate → List (Reason Rate) → FailedReason Rate
  reason_or default [] = default
  reason_or default (r ∷ reasons) = joined r reasons

  pub verdict_of : Findings Rate → Status × Option (FailedReason Rate)
  verdict_of f =
      if f.failing
      then (fail, some (reason_or policy_violated f.reasons))
      else if f.warning
      then (warn, some (reason_or missing_inputs f.reasons))
      else (pass, none)

  unfoldable pub evaluate :
      SlaPolicy Rate
      → (qc_rate etl_rate : Option Rate) → (failed_workflows : ℕ) → (missing : List Text)
      → Status × Option (FailedReason Rate)
  unfolding check_missing check_rate check_workflows verdict_of
  evaluate policy qc_rate etl_rate failed_workflows missing =
      let start : Findings Rate = record { reasons = []; failing = false; warning = false } in
      let outputs = check_missing missing start in
      let qc =
        check_rate qc_pass_rate_null qc_pass_rate_below qc_rate policy.min_qc_pass_rate outputs in
      let etl =
        check_rate etl_success_rate_null etl_success_rate_below etl_rate policy.min_etl_success_rate
          qc in
      verdict_of (check_workflows failed_workflows policy.max_failed_workflows etl)
