-- ===== src/Backfill/Candidates/Queries.antt =====
-- Which runs become candidates: none outside what was asked for, and every row that qualifies.
use robot_data_harness.Common.{
  ℕ, zero, suc, ◌+◌, ◌-◌, ◌≤◌, ◌≡◌, refl, ◌⊎◌, inl, inr, Bool, true, ◌&&◌, Option, none, some, List,
  [], ◌∷◌, Text, text_beq, text_beq_iff, leb, any, All, All-append, Bool-cases, Option-cases,
  >>=-eq-some, sym, ◌∙◌, subst, arith,
}
use mathlib.Core.Option.{some_inj}
use robot_data_harness.Backfill.Keys.{Key, key_beq, add_key}
use robot_data_harness.Backfill.Candidates.{
  DateRange, FactRow, Tables, PlanRequest, rows_of, where_is, given, option_or, normalized_filter,
  in_query, etl_query, key_of, add_found, add_rows, add_days, day_key, or_each_day, iter_dates,
  dates_from, collect_candidates,
}

module _ (upper : Text → Text) (request : PlanRequest) (window : DateRange) where
  -- The key is of a day of the window, and of the dataset and the version that were asked for, if any.
  abbrev pub IsRequested : Key → Type 0
  IsRequested k =
      (window.start ≤ k.dt)
      × (k.dt ≤ window.end)
      × (where_is request.dataset_id (some k.dataset_id) ≡ true)
      × (where_is request.version (some k.version) ≡ true)

  add_key-IsRequested :
      (k : Key) (keys : List Key)
      → IsRequested k
      → All IsRequested keys
      → All IsRequested (add_key k keys)
  unfolding add_key
  add_key-IsRequested k keys h hs = elim (Bool-cases (any (key_beq k) keys)) [
    | inl e ↦ rw e hs
    | inr e ↦ rw e (All-append IsRequested keys (k ∷ []) hs (h, tt))
  ]

  given-eq : (o : Option Text) {t : Text} → given o ≡ some t → o ≡ some t
  given-eq none e = cc
  given-eq (some []) e = cc
  given-eq (some (c ∷ u)) e = e

  -- A row of the query gives a key that was asked for.
  key_of-IsRequested :
      (phase_of : FactRow → Text) (family_of : FactRow → Option Text) (r : FactRow) {k : Key}
      → in_query upper request window r ≡ true
      → key_of upper request window phase_of family_of r ≡ some k
      → IsRequested k
  unfolding in_query key_of
  key_of-IsRequested phase_of family_of r {k} h e =
      let (d, dated, e1) = >>=-eq-some r.dt _ {b = k} e in
      let (ds, named, e2) = >>=-eq-some (given r.dataset_id) _ {b = k} e1 in
      let (ver, versioned, e3) = >>=-eq-some (given r.version) _ {b = k} e2 in
      let key : Key = record {
        dt = d;
        dataset_id = ds;
        version = ver;
        phase = phase_of r;
        family = family_of r;
      } in
      let in_filter =
        any (text_beq (upper (option_or r.status []))) (normalized_filter upper request window) in
      let same : key ≡ k = elim (Bool-cases in_filter) [
        | inl c ↦ some_inj.0 (rw c at e3)
        | inr c ↦ cc (rw c at e3)
      ] in
      let asked : ((leb window.start d
            && (leb d window.end
                && (where_is request.dataset_id (some ds) && where_is request.version (some ver))))
          ≡ true) =
        sym (rw (dated, given-eq r.dataset_id named, given-eq r.version versioned, in_query) refl)
        ∙ h in
      subst IsRequested same
        (ground (arith, asked), ground (arith, asked), ground (arith, asked), ground (arith, asked))

  add_found-IsRequested :
      (found : Option Key) (keys : List Key)
      → found ≡ none ⊎ ((k : Key) × (found ≡ some k) × IsRequested k)
      → All IsRequested keys
      → All IsRequested (add_found found keys)
  unfolding add_found
  add_found-IsRequested none keys h hs = hs
  add_found-IsRequested (some k) keys h hs = elim h [
    | inl e ↦ cc
    | inr (j, e, own) ↦ add_key-IsRequested k keys (subst IsRequested (sym (some_inj.0 e)) own) hs
  ]

  add_rows-IsRequested :
      (test : FactRow → Bool) (phase_of : FactRow → Text) (family_of : FactRow → Option Text)
      → ((r : FactRow) → test r ≡ true → in_query upper request window r ≡ true)
      → (rows : List FactRow) (keys : List Key) → All IsRequested keys
      → All IsRequested (
          add_rows upper request window test
            (key_of upper request window phase_of family_of)
            rows
            keys)
  unfolding add_rows
  add_rows-IsRequested test phase_of family_of narrow [] keys hs = hs
  add_rows-IsRequested test phase_of family_of narrow (r ∷ rows) keys hs =
      let next = add_rows-IsRequested test phase_of family_of narrow rows in
      let key = key_of upper request window phase_of family_of r in
      elim (Bool-cases (test r)) [
        | inl e ↦
            rw (e, add_rows)
              (next (add_found key keys) (
                add_found-IsRequested key keys
                  (elim (Option-cases key) [
                    | inl missing ↦ inl missing
                    | inr (k, is_k) ↦
                        inr (k, is_k, key_of-IsRequested phase_of family_of r (narrow r e) is_k)
                  ])
                  hs))
        | inr e ↦ rw (e, add_rows) (next keys hs)
      ]

  add_days-IsRequested :
      (ds ver : Text) (rounds cur : ℕ) (keys : List Key)
      → window.start ≤ cur
      → cur + rounds ≤ window.end + 1
      → where_is request.dataset_id (some ds) ≡ true
      → where_is request.version (some ver) ≡ true
      → All IsRequested keys
      → All IsRequested (add_days upper request window ds ver (dates_from rounds cur) keys)
  unfolding add_days dates_from
  add_days-IsRequested ds ver zero cur keys low high d v hs = hs
  add_days-IsRequested ds ver (suc rounds) cur keys low high d v hs =
      add_days-IsRequested ds ver rounds (cur + 1)
        (add_key (day_key upper request window ds ver cur) keys) (omega (arith, low))
        (omega (arith, high)) d v
        (add_key-IsRequested (day_key upper request window ds ver cur) keys
          (low, omega (arith, high), d, v) hs)

  where_is-given : (o : Option Text) {t : Text} → given o ≡ some t → where_is o (some t) ≡ true
  where_is-given none e = cc
  where_is-given (some []) e = cc
  where_is-given (some (c ∷ u)) {t} e = (text_beq_iff t (c ∷ u)).1 (sym (some_inj.0 e))

  or_each_day-IsRequested :
      (keys : List Key)
      → window.start ≤ window.end
      → All IsRequested keys
      → All IsRequested (or_each_day upper request window keys)
  unfolding or_each_day iter_dates
  or_each_day-IsRequested (k ∷ keys) ordered hs = hs
  or_each_day-IsRequested [] ordered hs = elim (Option-cases (given request.dataset_id)) [
    | inl e ↦ rw (e, or_each_day) tt
    | inr (ds, e) ↦ elim (Option-cases (given request.version)) [
      | inl e' ↦ rw (e, e', or_each_day) tt
      | inr (ver, e') ↦
          rw (e, e', or_each_day)
            (add_days-IsRequested ds ver (window.end + 1 - window.start) window.start []
              (omega arith) (omega (arith, ordered)) (where_is-given request.dataset_id e)
              (where_is-given request.version e') tt)
    ]
  ]

  -- Every candidate is of a day of the window and of the dataset and the version that were asked for,
  -- if any, whichever of the four tables it comes from and when no run was found.
  pub collect_candidates-IsRequested :
      (tables : Tables)
      → window.start ≤ window.end
      → All IsRequested (collect_candidates upper request window tables)
  unfolding collect_candidates etl_query
  collect_candidates-IsRequested tables ordered = or_each_day-IsRequested _ ordered (
      add_rows-IsRequested _ _ _ (λ r h. h) (rows_of tables.sla_checks) _
        (add_rows-IsRequested _ _ _ (λ r h. h) (rows_of tables.ads_quality_dashboard) _
          (add_rows-IsRequested _ _ _ (λ r h. h) (rows_of tables.fact_workflow_step) _
            (add_rows-IsRequested _ _ _ (λ r h. ground (arith, h)) (rows_of tables.fact_etl_run) []
              tt))))
