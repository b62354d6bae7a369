-- ===== src/Backfill/Candidates.antt =====
-- `_collect_candidates` of `BackfillPlanner`. The tables are lists of rows, `none` for a table that does
-- not exist; `str.upper` is an argument.
pub mod Queries
pub mod Coverage
pub mod Wanted
use robot_data_harness.Common.{
  ℕ, zero, suc, ◌+◌, ◌-◌, Bool, true, false, not, ◌&&◌, ◌||◌, Option, none, some, List, [], ◌∷◌,
  ◌++◌, map, length, Text, text_beq, codes, eqb, ltb, leb, any, if◌then◌else◌, ◌>>=◌, String, get,
  put,
}
use robot_data_harness.Backfill.Keys.{Key, add_key, sorted_keys}

pub record DateRange : Type 0 where
  pub start : ℕ
  pub end : ℕ

-- parse_date_range of two dates: ValueError when the end is before the start.
unfoldable pub date_range : (from_date to_date : ℕ) → Option DateRange
date_range from_date to_date =
    if ltb to_date from_date then none else some (record { start = from_date; end = to_date })

-- One round for each day of the window.
pub dates_from : (rounds cur : ℕ) → List ℕ
dates_from zero cur = []
dates_from (suc rounds) cur = cur ∷ dates_from rounds (cur + 1)

pub iter_dates : DateRange → List ℕ
unfolding dates_from
iter_dates window = dates_from (window.end + 1 - window.start) window.start

-- The columns that are read of fact_etl_run, fact_workflow_step (where `phase` is in `status`),
-- ads_quality_dashboard (`overall_status`) and sla_checks.
pub record FactRow : Type 0 where
  pub dt : Option ℕ
  pub dataset_id : Option Text
  pub version : Option Text
  pub phase : Option Text
  pub status : Option Text
  pub dataset_family : Option Text

pub record Tables : Type 0 where
  pub fact_etl_run : Option (List FactRow)
  pub fact_workflow_step : Option (List FactRow)
  pub ads_quality_dashboard : Option (List FactRow)
  pub sla_checks : Option (List FactRow)
  -- both backfill_plans and backfill_tasks exist
  pub backfill_tables : Bool

abbrev pub rows_of : Option (List FactRow) → List FactRow
rows_of none = []
rows_of (some rows) = rows

-- `value or default` of a text that may be missing or empty
abbrev pub option_or : Option Text → Text → Text
option_or none d = d
option_or (some []) d = d
option_or (some (c ∷ t)) d = c ∷ t

-- The truth of a text that may be missing.
abbrev pub given : Option Text → Option Text
given none = none
given (some []) = none
given (some (c ∷ t)) = some (c ∷ t)

pub record PlanRequest : Type 0 where
  pub from_date : ℕ
  pub to_date : ℕ
  pub dataset_id : Option Text
  pub version : Option Text
  pub phase : Option Text
  pub status_filter : List Text
  pub dry_run : Bool

-- A clause `if value: q = q.where(column == value)`; NULL equals nothing.
abbrev pub where_is : Option Text → Option Text → Bool
where_is none column = true
where_is (some []) column = true
where_is (some (c ∷ t)) none = false
where_is (some (c ∷ t)) (some v) = text_beq v (c ∷ t)

abbrev pub text_member : Text → List Text → Bool
text_member t = any (text_beq t)

abbrev pub default_status_filter : List Text
default_status_filter = codes "FAILED" ∷ codes "WARN" ∷ codes "ERROR" ∷ codes "FAIL" ∷ []

abbrev pub or_default_filter : List Text → List Text
or_default_filter [] = default_status_filter
or_default_filter (s ∷ filter) = s ∷ filter

pub add_found : Option Key → List Key → List Key
unfolding add_key
add_found none keys = keys
add_found (some k) keys = add_key k keys

module _ (upper : Text → Text) (request : PlanRequest) (window : DateRange) where
  -- tuple(s.upper() for s in (status_filter or DEFAULT_STATUS_FILTER))
  pub normalized_filter : List Text
  normalized_filter = map upper (or_default_filter request.status_filter)

  -- The WHERE clause on the date, the dataset and the version.
  pub in_query : FactRow → Bool
  in_query r = elim r.dt [
    | none ↦ false
    | some d ↦
        leb window.start d
        && (leb d window.end
            && (where_is request.dataset_id r.dataset_id && where_is request.version r.version))
  ]

  -- The key of a row with a date, whose status is in the filter and which names a dataset and a version.
  pub key_of : (FactRow → Text) → (FactRow → Option Text) → FactRow → Option Key
  unfolding normalized_filter
  key_of phase_of family_of r = do
    d ← r.dt
    ds ← given r.dataset_id
    ver ← given r.version
    if text_member (upper (option_or r.status [])) normalized_filter
        then some (record {
          dt = d;
          dataset_id = ds;
          version = ver;
          phase = phase_of r;
          family = family_of r;
        })
        else none

  -- The loop over the rows of a query.
  pub add_rows : (FactRow → Bool) → (FactRow → Option Key) → List FactRow → List Key → List Key
  unfolding add_found
  add_rows test key [] keys = keys
  add_rows test key (r ∷ rows) keys =
      add_rows test key rows (if test r then add_found (key r) keys else keys)

  abbrev pub day_key : (dataset_id version : Text) → ℕ → Key
  day_key ds ver d = record {
    dt = d;
    dataset_id = ds;
    version = ver;
    phase = option_or request.phase (codes "normalize");
    family = none;
  }

  pub add_days : (dataset_id version : Text) → List ℕ → List Key → List Key
  unfolding add_key
  add_days ds ver [] keys = keys
  add_days ds ver (d ∷ days) keys = add_days ds ver days (add_key (day_key ds ver d) keys)

  -- For a dataset and a version that are given and have no runs: each day of the window.
  pub or_each_day : List Key → List Key
  unfolding add_days iter_dates
  or_each_day (k ∷ keys) = k ∷ keys
  or_each_day [] = elim (given request.dataset_id) [
    | none ↦ []
    | some ds ↦ elim (given request.version) [
      | none ↦ []
      | some ver ↦ add_days ds ver (iter_dates window) []
    ]
  ]

  pub etl_query : FactRow → Bool
  unfolding in_query
  etl_query r = in_query r && where_is request.phase r.phase

  unfoldable pub collect_candidates : Tables → List Key
  unfolding add_rows in_query etl_query key_of or_each_day
  collect_candidates tables =
      let family_of : FactRow → Option Text = λ r. r.dataset_family in
      let fixed : Text → FactRow → Text = λ t r. option_or request.phase t in
      let etl =
        add_rows etl_query (key_of (λ r. option_or r.phase (codes "normalize")) family_of)
          (rows_of tables.fact_etl_run) [] in
      let steps =
        add_rows in_query (key_of (fixed (codes "workflow")) family_of)
          (rows_of tables.fact_workflow_step) etl in
      let boards =
        add_rows in_query (key_of (fixed (codes "build_features")) family_of)
          (rows_of tables.ads_quality_dashboard) steps in
      or_each_day (
        add_rows in_query (key_of (fixed (codes "sla")) (λ r. none)) (rows_of tables.sla_checks)
          boards)
