-- ===== src/Gate/Samples.antt =====
-- A gate on two metrics.
use robot_data_harness.Common.{
  ℕ, ◌≡◌, refl, Bool, Option, none, some, [], ◌∷◌, map, All, String, ◌==◌, if◌then◌else◌, ltb, leb,
  eqb,
}
use robot_data_harness.Gate.{
  Values, GateRule, GateReport, evaluate_rule, evaluate_value, compare_floats, evaluate_gate,
}
use robot_data_harness.Gate.Verdict.{IsDecided, result_of, evaluate_gate-returns}

-- Values that are numbers.
abbrev numbers : Values
numbers = record {
  Value = ℕ;
  Float = ℕ;
  to_float = λ v. some v;
  at_most = leb;
  less = ltb;
  equal = eqb;
  unpack = λ v. none;
  contained = λ x v. none;
}

abbrev loss : GateRule ℕ
loss = record { name = "loss"; metric = "loss"; op = "<="; value = 5; severity = "fail" }

abbrev rate : GateRule ℕ
rate = record { name = "rate"; metric = "rate"; op = ">"; value = 9; severity = "warn" }

-- The rate is not measured.
abbrev metrics : String → Option ℕ
metrics m = if m == "loss" then some 3 else none

abbrev passes : GateRule ℕ → Bool
passes r = r.name == "loss"

decided : All (IsDecided numbers metrics passes) (loss ∷ rate ∷ [])
unfolding evaluate_rule evaluate_value compare_floats
decided = (refl, (refl, tt))

evaluate_gate-returns_example :
    (report : GateReport ℕ) × (evaluate_gate numbers metrics (loss ∷ rate ∷ []) ≡ some report)
    × (report.results ≡ map (result_of numbers metrics passes) (loss ∷ rate ∷ []))
    × (report.failed_rules ≡ [])
    × (report.warning_rules ≡ "rate" ∷ [])
    × (report.status ≡ "WARN")
evaluate_gate-returns_example =
    evaluate_gate-returns numbers metrics passes (loss ∷ rate ∷ []) decided
