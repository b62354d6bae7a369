-- ===== src/Sla/Samples.antt =====
-- Concrete policies.
use robot_data_harness.Common.{
  ℕ, ◌≡◌, true, not, Option, none, some, [], ◌∷◌, Text, codes, ltb, text_beq, All,
}
use robot_data_harness.Sla.{
  RateOrder, SlaPolicy, ScopeRow, select_datasets, evaluate, fail, qc_pass_rate_below,
  etl_success_rate_null,
}
use robot_data_harness.Sla.Scope.{
  IsScope, IsChecked, select_datasets-IsScope, select_datasets-IsChecked,
}
use robot_data_harness.Sla.Conditions.{listed}
use robot_data_harness.Sla.Verdict.{is_pass, is_explained, has_reason, evaluate-explained}

-- Rates in percent.
abbrev percent : RateOrder
percent = record { Rate = ℕ; below = ltb }

abbrev policy : SlaPolicy ℕ
policy = record {
  dataset_pattern = none;
  dataset_family = some (codes "arm");
  required_outputs = [];
  min_qc_pass_rate = some 90;
  min_etl_success_rate = some 95;
  max_failed_workflows = none;
  enabled = true;
}

abbrev row : Option Text → ScopeRow
row family = record {
  dataset_id = some (codes "droid");
  version = some (codes "v1");
  dataset_family = family;
}

select_datasets-IsScope_example : IsScope text_beq policy (
    select_datasets text_beq policy
      (row (some (codes "arm")) ∷ row none ∷ [])
      (row (some (codes "arm")) ∷ []))
select_datasets-IsScope_example =
    select_datasets-IsScope text_beq policy (row (some (codes "arm")) ∷ row none ∷ [])
      (row (some (codes "arm")) ∷ [])

evaluate-explained_example :
    let (status, reason) = evaluate percent policy (some 80) none 0 [] in
    (listed reason ≡ qc_pass_rate_below 80 90 ∷ etl_success_rate_null ∷ [])
    × (status ≡ fail)
    × (is_explained reason ≡ not (is_pass status))
    × (has_reason reason ≡ not (is_pass status))
evaluate-explained_example = evaluate-explained percent policy (some 80) none 0 []

select_datasets-IsChecked_example :
    All
      (IsChecked text_beq policy
        (select_datasets text_beq policy (row (some (codes "arm")) ∷ []) (row none ∷ [])))
      (row (some (codes "arm")) ∷ [])
    × All
        (IsChecked text_beq policy
          (select_datasets text_beq policy (row (some (codes "arm")) ∷ []) (row none ∷ [])))
        (row none ∷ [])
select_datasets-IsChecked_example =
    select_datasets-IsChecked text_beq policy (row (some (codes "arm")) ∷ []) (row none ∷ [])
