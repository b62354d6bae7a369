-- ===== src/Backfill/Candidates/Wanted.antt =====
-- The rows that a request asks for, column by column, are all among the candidates.
use robot_data_harness.Common.{
  ℕ, ◌≤◌, ◌≡◌, refl, sym, subst, ◌∙◌, Bool, true, false, ◌||◌, Option, none, some, List, [], ◌∷◌,
  ◌++◌, Text, text_beq, codes, if◌then◌else◌, any, map, All, arith,
}
use robot_data_harness.Backfill.Keys.{Key}
use robot_data_harness.Backfill.Candidates.{
  DateRange, FactRow, Tables, PlanRequest, rows_of, option_or, given, where_is, or_default_filter,
  text_member, normalized_filter, in_query, etl_query, key_of, collect_candidates,
}
use robot_data_harness.Backfill.Candidates.Coverage.{holds, IsCovered, collect_candidates-IsCovered}

-- The four tables that are read.
pub data Source : Type 0 where
  runs steps boards checks : Source

abbrev pub table_of : Source → Tables → Option (List FactRow)
table_of runs tables = tables.fact_etl_run
table_of steps tables = tables.fact_workflow_step
table_of boards tables = tables.ads_quality_dashboard
table_of checks tables = tables.sla_checks

abbrev text_of : Option Text → Text
text_of none = []
text_of (some t) = t

-- No value is asked for, or this one.
abbrev asks_for : (asked value : Option Text) → Bool
asks_for asked none = text_beq (text_of asked) []
asks_for asked (some v) = text_beq (text_of asked) [] || text_beq v (text_of asked)

abbrev statuses_asked : List Text → List Text
statuses_asked [] = codes "FAILED" ∷ codes "WARN" ∷ codes "ERROR" ∷ codes "FAIL" ∷ []
statuses_asked (s ∷ statuses) = s ∷ statuses

-- Only the runs are filtered by their phase.
abbrev asks_phase : Source → (asked phase : Option Text) → Bool
asks_phase runs asked phase = asks_for asked phase
asks_phase steps asked phase = true
asks_phase boards asked phase = true
asks_phase checks asked phase = true

abbrev phase_or : Option Text → Text → Text
phase_or phase default = if text_beq (text_of phase) [] then default else text_of phase

-- The phase of a run is its own, that of the other rows the one that is asked for; each has a default.
abbrev pub wanted_phase : Source → PlanRequest → FactRow → Text
wanted_phase runs request r = phase_or r.phase (codes "normalize")
wanted_phase steps request r = phase_or request.phase (codes "workflow")
wanted_phase boards request r = phase_or request.phase (codes "build_features")
wanted_phase checks request r = phase_or request.phase (codes "sla")

abbrev pub wanted_family : Source → FactRow → Option Text
wanted_family runs r = r.dataset_family
wanted_family steps r = r.dataset_family
wanted_family boards r = r.dataset_family
wanted_family checks r = none

-- The row is of this day, dataset and version, which the request asks for, and so is its status.
pub record IsWanted (upper : Text → Text) (request : PlanRequest) (window : DateRange)
    (source : Source) (r : FactRow) (d : ℕ) (ds ver : Text) : Type 0 where
  pub dated : r.dt ≡ some d
  pub starts : window.start ≤ d
  pub ends : d ≤ window.end
  pub dataset : r.dataset_id ≡ some ds
  pub version : r.version ≡ some ver
  pub dataset_named : text_beq ds [] ≡ false
  pub version_named : text_beq ver [] ≡ false
  pub dataset_asked : asks_for request.dataset_id (some ds) ≡ true
  pub version_asked : asks_for request.version (some ver) ≡ true
  pub phase_asked : asks_phase source request.phase r.phase ≡ true
  pub status_asked :
      any
        (λ s. text_beq (upper (text_of r.status)) (upper s))
        (statuses_asked request.status_filter)
      ≡ true

where_is-asks_for : (asked value : Option Text) → where_is asked value ≡ asks_for asked value
where_is-asks_for none none = refl
where_is-asks_for none (some v) = refl
where_is-asks_for (some []) none = refl
where_is-asks_for (some []) (some v) = refl
where_is-asks_for (some (c ∷ t)) none = refl
where_is-asks_for (some (c ∷ t)) (some v) = refl

option_or-phase_or :
    (phase : Option Text) (default : Text) → option_or phase default ≡ phase_or phase default
option_or-phase_or none default = refl
option_or-phase_or (some []) default = refl
option_or-phase_or (some (c ∷ t)) default = refl

option_or-text_of : (t : Option Text) → option_or t [] ≡ text_of t
option_or-text_of none = refl
option_or-text_of (some []) = refl
option_or-text_of (some (c ∷ t)) = refl

given-named : (t : Text) → text_beq t [] ≡ false → given (some t) ≡ some t
given-named [] h = cc
given-named (c ∷ t) h = refl

statuses_asked-filter :
    (statuses : List Text) → or_default_filter statuses ≡ statuses_asked statuses
statuses_asked-filter [] = refl
statuses_asked-filter (s ∷ statuses) = refl

any-map :
    (p : Text → Bool) (f : Text → Text) (ts : List Text) → any p (map f ts) ≡ any (λ t. p (f t)) ts
any-map p f [] = refl
any-map p f (t ∷ ts) = rw (any-map p f ts) refl

All-at {ℓ κ} :
    {A : Type ℓ} (P : A → Type κ) (before : List A) (x : A) (after : List A)
    → All P (before ++ x ∷ after)
    → P x
All-at P [] x after h = h.0
All-at P (y ∷ before) x after h = All-at P before x after h.1

module _ (upper : Text → Text) (request : PlanRequest) (window : DateRange) where
  in_query-wanted :
      (source : Source) (r : FactRow) (d : ℕ) (ds ver : Text)
      → IsWanted upper request window source r d ds ver
      → in_query upper request window r ≡ true
  unfolding in_query
  in_query-wanted source r d ds ver w =
      let a = where_is-asks_for request.dataset_id (some ds) ∙ w.dataset_asked in
      let b = where_is-asks_for request.version (some ver) ∙ w.version_asked in
      rw (w.dated, w.dataset, w.version, a, b) (ground (arith, w.starts, w.ends))

  key_of-wanted :
      (source : Source) (phase : FactRow → Text) (family : FactRow → Option Text) (r : FactRow)
      (d : ℕ) (ds ver : Text)
      → IsWanted upper request window source r d ds ver
      → key_of upper request window phase family r
        ≡ some
            (record { dt = d; dataset_id = ds; version = ver; phase = phase r; family = family r })
  unfolding key_of normalized_filter
  key_of-wanted source phase family r d ds ver w =
      let listed : text_member (upper (option_or r.status []))
            (map upper (or_default_filter request.status_filter))
          ≡ true =
        rw (option_or-text_of r.status, statuses_asked-filter request.status_filter)
          (any-map (text_beq (upper (text_of r.status))) upper
              (statuses_asked request.status_filter)
            ∙ w.status_asked) in
      rw
        (
          w.dated,
          w.dataset,
          w.version,
          given-named ds w.dataset_named,
          given-named ver w.version_named,
          listed,
        )
        refl

  IsCovered-held :
      (test : FactRow → Bool) (key : FactRow → Option Key) (keys : List Key)
      (table : Option (List FactRow)) (before : List FactRow) (r : FactRow) (after : List FactRow)
      (k : Key)
      → All (IsCovered test key keys) (rows_of table)
      → table ≡ some (before ++ r ∷ after)
      → test r ≡ true
      → key r ≡ some k
      → holds keys k ≡ true
  IsCovered-held test key keys table before r after k covered at e is_k =
      let here =
        All-at (IsCovered test key keys) before r after
          (subst (λ o. All (IsCovered test key keys) (rows_of o)) at covered) in
      sym (rw (e, is_k) refl) ∙ here

  -- Every row of the four tables that a request asks for is among the candidates. Such a row has a day
  -- in the window, a dataset and a version that are not empty and are those of the request, if it names
  -- any; its status is in the filter of the request, or in the default one, when both are in upper case;
  -- and a run has the phase of the request, if it names one. Its candidate has its day, dataset and
  -- version; the phase is that of a run, or else the one that is asked for, with the default of the
  -- table; the family is that of the row, and none for a check.
  pub collect_candidates-covers :
      (tables : Tables) (source : Source) (before : List FactRow) (r : FactRow)
      (after : List FactRow) (d : ℕ) (ds ver : Text)
      → table_of source tables ≡ some (before ++ r ∷ after)
      → IsWanted upper request window source r d ds ver
      → holds (collect_candidates upper request window tables) (record {
        dt = d;
        dataset_id = ds;
        version = ver;
        phase = wanted_phase source request r;
        family = wanted_family source r;
      })
        ≡ true
  unfolding etl_query
  collect_candidates-covers tables runs before r after d ds ver at w =
      IsCovered-held _ _ _ (table_of runs tables) before r after _
        (collect_candidates-IsCovered upper request window tables).0 at
        (rw (in_query-wanted runs r d ds ver w)
          (where_is-asks_for request.phase r.phase ∙ w.phase_asked))
        (key_of-wanted runs _ _ r d ds ver w
          ∙ rw (option_or-phase_or r.phase (codes "normalize")) refl)
  collect_candidates-covers tables steps before r after d ds ver at w =
      IsCovered-held _ _ _ (table_of steps tables) before r after _
        (collect_candidates-IsCovered upper request window tables).1 at
        (in_query-wanted steps r d ds ver w)
        (key_of-wanted steps _ _ r d ds ver w
          ∙ rw (option_or-phase_or request.phase (codes "workflow")) refl)
  collect_candidates-covers tables boards before r after d ds ver at w =
      IsCovered-held _ _ _ (table_of boards tables) before r after _
        (collect_candidates-IsCovered upper request window tables).2 at
        (in_query-wanted boards r d ds ver w)
        (key_of-wanted boards _ _ r d ds ver w
          ∙ rw (option_or-phase_or request.phase (codes "build_features")) refl)
  collect_candidates-covers tables checks before r after d ds ver at w =
      IsCovered-held _ _ _ (table_of checks tables) before r after _
        (collect_candidates-IsCovered upper request window tables).3 at
        (in_query-wanted checks r d ds ver w)
        (key_of-wanted checks _ _ r d ds ver w
          ∙ rw (option_or-phase_or request.phase (codes "sla")) refl)
