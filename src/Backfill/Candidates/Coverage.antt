-- ===== src/Backfill/Candidates/Coverage.antt =====
-- Every row that a query selects and that qualifies becomes a candidate.
use robot_data_harness.Common.{
  ◌≡◌, refl, sym, ◌∙◌, inl, inr, Bool, true, ◌||◌, Option, none, some, List, [], ◌∷◌, ◌++◌, Text,
  text_beq, text_beq_iff, codes, if◌then◌else◌, any, All, All-map, Bool-cases, Option-cases, arith,
}
use robot_data_harness.Backfill.Keys.{Key, key_beq, same_run, family_beq, add_key}
use robot_data_harness.Backfill.Candidates.{
  DateRange, FactRow, Tables, PlanRequest, rows_of, option_or, in_query, etl_query, key_of,
  add_found, add_rows, or_each_day, collect_candidates,
}

abbrev pub holds : List Key → Key → Bool
holds keys k = any (key_beq k) keys

text_beq_refl : (t : Text) → text_beq t t ≡ true
text_beq_refl t = (text_beq_iff t t).1 refl

family_beq_refl : (f : Option Text) → family_beq f f ≡ true
family_beq_refl none = refl
family_beq_refl (some t) = text_beq_refl t

key_beq_refl : (k : Key) → key_beq k k ≡ true
unfolding key_beq same_run
key_beq_refl k = ground (
  arith,
  text_beq_refl k.dataset_id,
  text_beq_refl k.version,
  text_beq_refl k.phase,
  family_beq_refl k.family,
)

holds-append :
    (keys more : List Key) (k : Key) → holds (keys ++ more) k ≡ (holds keys k || holds more k)
holds-append [] more k = refl
holds-append (j ∷ keys) more k = ground (arith, holds-append keys more k)

-- A key that is added is held, and what is held stays.
add_key-holds : (k : Key) (keys : List Key) → holds (add_key k keys) k ≡ true
unfolding add_key
add_key-holds k keys = elim (Bool-cases (holds keys k)) [
  | inl e ↦ rw e e
  | inr e ↦ rw (e, holds-append keys (k ∷ []) k, e, key_beq_refl k) refl
]

add_key-keeps :
    (k j : Key) (keys : List Key) → holds keys j ≡ true → holds (add_key k keys) j ≡ true
unfolding add_key
add_key-keeps k j keys h = elim (Bool-cases (holds keys k)) [
  | inl e ↦ rw e h
  | inr e ↦ rw (e, holds-append keys (k ∷ []) j, h) refl
]

add_found-keeps :
    (found : Option Key) (j : Key) (keys : List Key)
    → holds keys j ≡ true
    → holds (add_found found keys) j ≡ true
unfolding add_found
add_found-keeps none j keys h = h
add_found-keeps (some k) j keys h = add_key-keeps k j keys h

-- A row that the query selects and that gives a key has its key among the candidates.
abbrev pub IsCovered : (FactRow → Bool) → (FactRow → Option Key) → List Key → FactRow → Type 0
IsCovered test key keys r =
    (if test r then elim (key r) [ none ↦ true | some k ↦ holds keys k ] else true) ≡ true

IsCovered-by :
    (test : FactRow → Bool) (key : FactRow → Option Key) (keys : List Key) (r : FactRow) {k : Key}
    → test r ≡ true
    → key r ≡ some k
    → holds keys k ≡ true
    → IsCovered test key keys r
IsCovered-by test key keys r e is_k h = rw (e, is_k) h

module _ (upper : Text → Text) (request : PlanRequest) (window : DateRange) where
  add_rows-keeps :
      (test : FactRow → Bool) (key : FactRow → Option Key) (rows : List FactRow) (keys : List Key)
      (j : Key)
      → holds keys j ≡ true
      → holds (add_rows upper request window test key rows keys) j ≡ true
  unfolding add_rows
  add_rows-keeps test key [] keys j h = h
  add_rows-keeps test key (r ∷ rows) keys j h = elim (Bool-cases (test r)) [
    | inl e ↦
        rw (e, add_rows)
          (add_rows-keeps test key rows (add_found (key r) keys) j
            (add_found-keeps (key r) j keys h))
    | inr e ↦ rw (e, add_rows) (add_rows-keeps test key rows keys j h)
  ]

  IsCovered-more :
      (test : FactRow → Bool) (key : FactRow → Option Key) (before after : List Key)
      → ((k : Key) → holds before k ≡ true → holds after k ≡ true)
      → (r : FactRow) → IsCovered test key before r
      → IsCovered test key after r
  IsCovered-more test key before after more r h = elim (Bool-cases (test r)) [
    | inr e ↦ rw e refl
    | inl e ↦ elim (Option-cases (key r)) [
      | inl missing ↦ rw (e, missing) refl
      | inr (k, is_k) ↦ rw (e, is_k) (more k (sym (rw (e, is_k) refl) ∙ h))
    ]
  ]

  add_rows-covers :
      (test : FactRow → Bool) (key : FactRow → Option Key) (rows : List FactRow) (keys : List Key)
      → All (IsCovered test key (add_rows upper request window test key rows keys)) rows
  unfolding add_rows add_found
  add_rows-covers test key [] keys = tt
  add_rows-covers test key (r ∷ rows) keys = (
    elim (Bool-cases (test r)) [
      | inr e ↦ rw e refl
      | inl e ↦ elim (Option-cases (key r)) [
        | inl missing ↦ rw (e, missing) refl
        | inr (k, is_k) ↦
            let next = if test r then add_found (key r) keys else keys in
            let held : holds next k ≡ true = rw (e, is_k) (add_key-holds k keys) in
            let kept = add_rows-keeps test key rows next k held in
            IsCovered-by test key (add_rows upper request window test key rows next) r e is_k kept
      ]
    ],
    add_rows-covers test key rows (if test r then add_found (key r) keys else keys),
  )

  or_each_day-keeps :
      (keys : List Key) (j : Key)
      → holds keys j ≡ true
      → holds (or_each_day upper request window keys) j ≡ true
  unfolding or_each_day
  or_each_day-keeps [] j h = cc
  or_each_day-keeps (k ∷ keys) j h = h

  -- The key of every row that the query of its table selects is among the candidates.
  pub collect_candidates-IsCovered :
      (tables : Tables)
      → let phase_or : Text → FactRow → Text = λ t r. option_or request.phase t in
        let key = key_of upper request window in
        let keys = collect_candidates upper request window tables in
        All
          (IsCovered
            (etl_query upper request window)
            (key (λ r. option_or r.phase (codes "normalize")) (λ r. r.dataset_family))
            keys)
          (rows_of tables.fact_etl_run)
        × All
            (IsCovered
              (in_query upper request window)
              (key (phase_or (codes "workflow")) (λ r. r.dataset_family))
              keys)
            (rows_of tables.fact_workflow_step)
        × All
            (IsCovered
              (in_query upper request window)
              (key (phase_or (codes "build_features")) (λ r. r.dataset_family))
              keys)
            (rows_of tables.ads_quality_dashboard)
        × All
            (IsCovered
              (in_query upper request window)
              (key (phase_or (codes "sla")) (λ r. none))
              keys)
            (rows_of tables.sla_checks)
  unfolding collect_candidates
  collect_candidates-IsCovered tables =
      let one =
        key_of upper request window (λ r. option_or r.phase (codes "normalize"))
          (λ r. r.dataset_family) in
      let two =
        key_of upper request window (λ r. option_or request.phase (codes "workflow"))
          (λ r. r.dataset_family) in
      let three =
        key_of upper request window (λ r. option_or request.phase (codes "build_features"))
          (λ r. r.dataset_family) in
      let four =
        key_of upper request window (λ r. option_or request.phase (codes "sla")) (λ r. none) in
      let selected = in_query upper request window in
      let etl =
        add_rows upper request window (etl_query upper request window) one
          (rows_of tables.fact_etl_run) [] in
      let steps =
        add_rows upper request window selected two (rows_of tables.fact_workflow_step) etl in
      let boards =
        add_rows upper request window selected three (rows_of tables.ads_quality_dashboard) steps in
      let checks = add_rows upper request window selected four (rows_of tables.sla_checks) boards in
      let from_checks : (k : Key)
          → holds checks k ≡ true
          → holds (or_each_day upper request window checks) k ≡ true =
        λ k h. or_each_day-keeps checks k h in
      let from_boards : (k : Key)
          → holds boards k ≡ true
          → holds (or_each_day upper request window checks) k ≡ true =
        λ k h.
          from_checks k (add_rows-keeps selected four (rows_of tables.sla_checks) boards k h) in
      let from_steps : (k : Key)
          → holds steps k ≡ true
          → holds (or_each_day upper request window checks) k ≡ true =
        λ k h.
          from_boards k
            (add_rows-keeps selected three (rows_of tables.ads_quality_dashboard) steps k h) in
      let from_etl : (k : Key)
          → holds etl k ≡ true
          → holds (or_each_day upper request window checks) k ≡ true =
        λ k h.
          from_steps k (add_rows-keeps selected two (rows_of tables.fact_workflow_step) etl k h) in
      (
        All-map _ _ (IsCovered-more _ one etl _ from_etl) (rows_of tables.fact_etl_run)
            (add_rows-covers (etl_query upper request window) one (rows_of tables.fact_etl_run) []),
        All-map _ _ (IsCovered-more _ two steps _ from_steps) (rows_of tables.fact_workflow_step)
            (add_rows-covers selected two (rows_of tables.fact_workflow_step) etl),
        All-map _ _ (IsCovered-more _ three boards _ from_boards)
            (rows_of tables.ads_quality_dashboard)
            (add_rows-covers selected three (rows_of tables.ads_quality_dashboard) steps),
        All-map _ _ (IsCovered-more _ four checks _ from_checks) (rows_of tables.sla_checks)
            (add_rows-covers selected four (rows_of tables.sla_checks) boards),
      )
