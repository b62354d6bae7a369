-- ===== src/Gate/Verdict.antt =====
-- The verdict of a gate whose rules can all be evaluated.
use robot_data_harness.Common.{
  ◌≡◌, refl, ap, sym, ◌∙◌, inl, inr, Bool, true, false, not, ◌&&◌, ◌||◌, Option, some, List, [],
  ◌∷◌, ◌++◌, map, any, select, All, String, ◌==◌, if◌then◌else◌, Bool-cases, arith,
}
use mathlib.Core.List.{append_assoc, append-nil}
use robot_data_harness.Gate.{
  Values, GateRule, RuleResult, GateReport, GateState, evaluate_rule, evaluate_rules, record_rule,
  status_of, evaluate_gate,
}

abbrev some_named : List String → Bool
some_named [] = false
some_named (n ∷ names) = true

module _ (values : Values) (metrics : String → Option values.Value)
    (passes : GateRule values.Value → Bool) where
  open values use {Value}

  abbrev pub blocks : GateRule Value → Bool
  blocks r = not (passes r) && r.severity == "fail"

  abbrev pub alerts : GateRule Value → Bool
  alerts r = not (passes r) && not (r.severity == "fail")

  -- The rule evaluates to what `passes` says of it.
  abbrev pub IsDecided : GateRule Value → Type 0
  IsDecided r = evaluate_rule values (metrics r.metric) r ≡ some (passes r)

  abbrev pub result_of : GateRule Value → RuleResult Value
  result_of r = record { rule = r; actual = metrics r.metric; passed = passes r }

  abbrev pub names : List (GateRule Value) → List String
  names = map (λ r. r.name)

  abbrev Adds : GateState Value → List (GateRule Value) → GateState Value → Type 0
  Adds s rules s' =
      (s'.results ≡ s.results ++ map result_of rules)
      × (s'.failed_rules ≡ s.failed_rules ++ names (select blocks rules))
      × (s'.warning_rules ≡ s.warning_rules ++ names (select alerts rules))

  record_rule-Adds :
      (r : GateRule Value) (s : GateState Value)
      → Adds s (r ∷ []) (record_rule values r (metrics r.metric) (passes r) s)
  unfolding record_rule
  record_rule-Adds r s = elim (Bool-cases (passes r)) [
    | inl e ↦ rw e (refl, sym (append-nil _), sym (append-nil _))
    | inr e ↦ elim (Bool-cases (r.severity == "fail")) [
      | inl f ↦ rw (e, f) (refl, refl, sym (append-nil _))
      | inr f ↦ rw (e, f) (refl, sym (append-nil _), refl)
    ]
  ]

  select_cons :
      (p : GateRule Value → Bool) (r : GateRule Value) (rules : List (GateRule Value))
      → names (select p (r ∷ rules)) ≡ names (select p (r ∷ [])) ++ names (select p rules)
  select_cons p r rules = elim (Bool-cases (p r)) [ inl e ↦ rw e | inr e ↦ rw e ]

  evaluate_rules-Adds :
      (rules : List (GateRule Value)) (s : GateState Value)
      → All IsDecided rules
      → (s' : GateState Value) × (evaluate_rules values metrics rules s ≡ some s') × Adds s rules s'
  unfolding evaluate_rules
  evaluate_rules-Adds [] s h =
      (s, refl, (sym (append-nil _), sym (append-nil _), sym (append-nil _)))
  evaluate_rules-Adds (r ∷ rules) s h =
      let next = record_rule values r (metrics r.metric) (passes r) s in
      let (results, failed, warned) = record_rule-Adds r s in
      let (s', returns, (results', failed', warned')) = evaluate_rules-Adds rules next h.1 in
      (
        s',
        rw (h.0, evaluate_rules) returns,
        (
          results' ∙ (ap (λ l. l ++ map result_of rules) results ∙ append_assoc s.results _ _),
          failed'
              ∙ (ap (λ l. l ++ names (select blocks rules)) failed
                  ∙ (append_assoc s.failed_rules _ _
                      ∙ ap (λ l. s.failed_rules ++ l) (sym (select_cons blocks r rules)))),
          warned'
              ∙ (ap (λ l. l ++ names (select alerts rules)) warned
                  ∙ (append_assoc s.warning_rules _ _
                      ∙ ap (λ l. s.warning_rules ++ l) (sym (select_cons alerts r rules)))),
        ),
      )

  abbrev pub verdict : List (GateRule Value) → String
  verdict rules =
      if any blocks rules
      then "FAIL"
      else if any (λ r. not (passes r)) rules
      then "WARN"
      else "PASS"

  some_named-any :
      (p : GateRule Value → Bool) (rules : List (GateRule Value))
      → some_named (names (select p rules)) ≡ any p rules
  some_named-any p [] = refl
  some_named-any p (r ∷ rules) = elim (Bool-cases (p r)) [
    | inl e ↦ rw e
    | inr e ↦ rw e (some_named-any p rules)
  ]

  any-split :
      (rules : List (GateRule Value))
      → any (λ r. not (passes r)) rules ≡ (any blocks rules || any alerts rules)
  any-split [] = refl
  any-split (r ∷ rules) = ground (arith, any-split rules)

  status_of-named :
      (failed warned : List String)
      → status_of values failed warned ≡ (
          if some_named failed
          then "FAIL"
          else if some_named failed || some_named warned
          then "WARN"
          else "PASS")
  unfolding status_of
  status_of-named [] [] = refl
  status_of-named [] (w ∷ warned) = refl
  status_of-named (f ∷ failed) warned = refl

  status_of-verdict :
      (rules : List (GateRule Value))
      → status_of values (names (select blocks rules)) (names (select alerts rules)) ≡ verdict rules
  status_of-verdict rules = rw (
    status_of-named (names (select blocks rules)) (names (select alerts rules)),
    some_named-any blocks rules,
    some_named-any alerts rules,
    any-split rules,
  )

  -- A gate whose rules can all be evaluated returns its report: a result for each rule, in the order
  -- of the policy; as failed rules those that do not pass and are of severity fail, and as warnings
  -- the others that do not pass; and the status FAIL when some rule of severity fail does not pass,
  -- else WARN when some rule does not, else PASS.
  pub evaluate_gate-returns :
      (rules : List (GateRule Value))
      → All IsDecided rules
      → (report : GateReport Value) × (evaluate_gate values metrics rules ≡ some report)
        × (report.results ≡ map result_of rules)
        × (report.failed_rules ≡ names (select blocks rules))
        × (report.warning_rules ≡ names (select alerts rules))
        × (report.status ≡ verdict rules)
  unfolding evaluate_gate
  evaluate_gate-returns rules h =
      let start : GateState Value = record {
        results = [];
        failed_rules = [];
        warning_rules = [];
      } in
      let (s, returns, (results, failed, warned)) = evaluate_rules-Adds rules start h in
      let report : GateReport Value = record {
        status = status_of values s.failed_rules s.warning_rules;
        results = s.results;
        failed_rules = s.failed_rules;
        warning_rules = s.warning_rules;
      } in
      (
        report,
        rw returns refl,
        results,
        failed,
        warned,
        rw (failed, warned) (status_of-verdict rules),
      )
