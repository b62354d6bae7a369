-- ===== src/Gate.antt =====
-- src/robot_dh/gate/evaluator.py and gate/policy.py: the rules of a quality gate on the metrics of a
-- report. The values of the metrics are an interface; a conversion or comparison that raises is `none`.
pub mod Verdict
mod Samples
use robot_data_harness.Common.{
  ℕ, Bool, true, false, not, ◌&&◌, Option, none, some, List, [], ◌∷◌, ◌++◌, String, Text, ◌==◌,
  if◌then◌else◌, ◌>>=◌,
}

pub record Values : Type 1 where
  pub Value : Type 0
  pub Float : Type 0
  -- float(value)
  pub to_float : Value → Option Float
  pub at_most : Float → Float → Bool
  pub less : Float → Float → Bool
  pub equal : Value → Value → Bool
  -- lower, upper = value
  pub unpack : Value → Option (Value × Value)
  -- actual in value
  pub contained : Value → Value → Option Bool

pub record GateRule (Value : Type 0) : Type 0 where
  pub name : String
  pub metric : String
  pub op : String
  pub value : Value
  pub severity : String

pub record RuleResult (Value : Type 0) : Type 0 where
  pub rule : GateRule Value
  pub actual : Option Value
  pub passed : Bool

pub record GateReport (Value : Type 0) : Type 0 where
  pub status : String
  pub results : List (RuleResult Value)
  pub failed_rules : List String
  pub warning_rules : List String

-- The lists that the loop fills.
pub record GateState (Value : Type 0) : Type 0 where
  pub results : List (RuleResult Value)
  pub failed_rules : List String
  pub warning_rules : List String

module _ (values : Values) where
  open values use {Value, Float, to_float, at_most, less, equal, unpack, contained}

  unfoldable pub compare_floats : (Float → Float → Bool) → Value → Value → Option Bool
  compare_floats holds x y = do a ← to_float x; b ← to_float y; some (holds a b)

  -- `lower <= actual <= upper`: the upper bound is converted only when the first comparison holds.
  pub between : Value → Value → Option Bool
  unfolding compare_floats
  between actual value = do
    bounds ← unpack value
    above ← compare_floats at_most bounds.0 actual
    let below = compare_floats at_most actual bounds.1
    if above then below else some false

  unfoldable pub evaluate_value : Value → GateRule Value → Option Bool
  unfolding compare_floats between
  evaluate_value actual rule =
      if rule.op == "<="
      then compare_floats at_most actual rule.value
      else if rule.op == "<"
      then compare_floats less actual rule.value
      else if rule.op == ">="
      then compare_floats (λ a b. at_most b a) actual rule.value
      else if rule.op == ">"
      then compare_floats (λ a b. less b a) actual rule.value
      else if rule.op == "=="
      then some (equal actual rule.value)
      else if rule.op == "!="
      then some (not (equal actual rule.value))
      else if rule.op == "between"
      then between actual rule.value
      else if rule.op == "in"
      then contained actual rule.value
      else none

  -- A missing metric does not pass.
  unfoldable pub evaluate_rule : Option Value → GateRule Value → Option Bool
  unfolding evaluate_value
  evaluate_rule none rule = some false
  evaluate_rule (some actual) rule = evaluate_value actual rule

  pub record_rule : GateRule Value → Option Value → Bool → GateState Value → GateState Value
  record_rule rule actual passed s =
      let results = s.results ++ record { rule = rule; actual = actual; passed = passed } ∷ [] in
      if passed
      then (record s { results = results })
      else if rule.severity == "fail"
      then (record s { results = results; failed_rules = s.failed_rules ++ rule.name ∷ [] })
      else (record s { results = results; warning_rules = s.warning_rules ++ rule.name ∷ [] })

  pub evaluate_rules :
      (String → Option Value) → List (GateRule Value) → GateState Value → Option (GateState Value)
  unfolding evaluate_rule record_rule
  evaluate_rules metrics [] s = some s
  evaluate_rules metrics (rule ∷ rules) s = do
    passed ← evaluate_rule (metrics rule.metric) rule
    evaluate_rules metrics rules (record_rule rule (metrics rule.metric) passed s)

  pub status_of : (failed_rules warning_rules : List String) → String
  status_of [] [] = "PASS"
  status_of [] (w ∷ warnings) = "WARN"
  status_of (f ∷ failed) warnings = "FAIL"

  unfoldable pub evaluate_gate :
      (String → Option Value) → List (GateRule Value) → Option (GateReport Value)
  unfolding evaluate_rules status_of
  evaluate_gate metrics rules = do
    s ←
        evaluate_rules metrics rules
          (record { results = []; failed_rules = []; warning_rules = [] })
    some (record {
      status = status_of s.failed_rules s.warning_rules;
      results = s.results;
      failed_rules = s.failed_rules;
      warning_rules = s.warning_rules;
    })
