-- ===== src/Progress/Stale.antt =====
-- progress/stale.py: the last heartbeat of each step of a workflow, and how long ago it was. Times are in
-- microseconds. `fromisoformat` of datetime and its `timestamp`, which takes a time without a zone for a
-- local one, are arguments.
pub mod Newest
pub mod Verdict
use robot_data_harness.Common.{
  ℕ, ◌-◌, Bool, true, false, not, ◌&&◌, ◌||◌, Option, none, some, List, [], ◌∷◌, ◌++◌, map, any,
  select, leb, ltb, sorted_by, text_lt, text_beq, text_eq, pair_eq, if◌then◌else◌, ◌>>=◌, String,
  ◌==◌, Text, codes, Dict, Eq, get, put, concat,
}

-- The entries of a record that the check reads.
pub record Heartbeat : Type 0 where
  pub workflow_name : Option Text
  pub phase : Option Text
  pub step_name : Option Text
  pub updated_at : Option Text

-- A datetime, with a zone or without.
pub record Moment : Type 0 where
  pub aware : Bool
  pub instant : ℕ

abbrev pub Key : Type 0
Key = Text × (Text × Text)

instance abbrev pub key_eq : Eq Key
key_eq = pair_eq ⦃d = text_eq⦄ ⦃e = pair_eq ⦃d = text_eq⦄ ⦃e = text_eq⦄⦄

-- text[:-1] + "+00:00", for a text that ends with "Z"
unfoldable pub zone_of : Text → Text
zone_of [] = []
zone_of (c ∷ []) = if text_beq (c ∷ []) (codes "Z") then codes "+00:00" else c ∷ []
zone_of (c ∷ d ∷ text) = c ∷ zone_of (d ∷ text)

-- `value or "-"`
abbrev pub or_dash : Option Text → Text
or_dash none = codes "-"
or_dash (some []) = codes "-"
or_dash (some (c ∷ text)) = c ∷ text

unfoldable pub key_of : Heartbeat → Key
key_of rec = (or_dash rec.workflow_name, (or_dash rec.phase, or_dash rec.step_name))

-- `>` of datetimes; TypeError (none) when one has a zone and the other has none.
unfoldable pub later : Moment → Moment → Option Bool
later m n =
    if m.aware
    then if n.aware then some (ltb n.instant m.instant) else none
    else if n.aware
    then none
    else some (ltb n.instant m.instant)

-- The dictionary after a record of the given key and moment.
abbrev pub keep_latest : Dict Key Moment → Key → Moment → Option Moment → Option (Dict Key Moment)
keep_latest latest key ts none = some (put key ts latest)
keep_latest latest key ts (some existing) = do
  is_later ← later ts existing
  some (if is_later then put key ts latest else latest)

abbrev pub with_record : Dict Key Moment → Key → Option Moment → Option (Dict Key Moment)
with_record latest key none = some latest
with_record latest key (some ts) = keep_latest latest key ts (get key latest)

-- `if workflow_name and rec.get("workflow_name") != workflow_name: continue`
abbrev pub is_asked : Option Text → Heartbeat → Bool
is_asked none rec = true
is_asked (some []) rec = true
is_asked (some (c ∷ name)) rec = elim rec.workflow_name [
  | none ↦ false
  | some other ↦ text_beq other (c ∷ name)
]

-- A line that is blank or no JSON is none.
unfoldable pub records_of_lines : Option Text → List (Option Heartbeat) → List Heartbeat
records_of_lines workflow_name [] = []
records_of_lines workflow_name (none ∷ lines) = records_of_lines workflow_name lines
records_of_lines workflow_name (some rec ∷ lines) =
    let rest = records_of_lines workflow_name lines in
    if is_asked workflow_name rec then rec ∷ rest else rest

-- The lines that are read of each file, in the order of the files' names.
unfoldable pub iter_local_records : Option Text → List (List (Option Heartbeat)) → List Heartbeat
iter_local_records workflow_name files = concat (map (records_of_lines workflow_name) files)

-- The answer of the warehouse's list_task_heartbeats.
pub data Answer : Type 0 where
  no_warehouse : Answer
  raised : Answer
  listed : List Heartbeat → Answer

abbrev pub source_of : Answer → String
source_of no_warehouse = "jsonl"
source_of raised = "jsonl"
source_of (listed records) = "pg"

abbrev pub records_of : Answer → List Heartbeat → List Heartbeat
records_of (listed (rec ∷ records)) local_records = rec ∷ records
records_of _ local_records = local_records

pub record StaleCheckRow : Type 0 where
  pub workflow_name : Option Text
  pub phase : Option Text
  pub step_name : Option Text
  pub last_updated_at : Moment
  pub seconds_since_last : ℕ
  pub status : String
  pub source : String

pub record StaleCheckReport : Type 0 where
  pub workflow_name : Option Text
  pub stale_after_sec : ℕ
  pub warn_after_sec : ℕ
  pub rows : List StaleCheckRow
  pub status : String

-- `None if name == "-" else name`
abbrev pub no_dash : Text → Option Text
no_dash name = if text_beq name (codes "-") then none else some name

unfoldable pub status_of_delta : ℕ → ℕ → ℕ → String
status_of_delta stale_after warn_after delta =
    if leb stale_after delta then "stale" else if leb warn_after delta then "warn" else "ok"

unfoldable pub overall : List StaleCheckRow → String
overall rows =
    if any (λ row. row.status == "stale") rows
    then "stale"
    else if any (λ row. row.status == "warn") rows
    then "warn"
    else "ok"

-- `<` on the keys
abbrev pub key_lt : Key → Key → Bool
key_lt (wf, (phase, step)) (wf', (phase', step')) =
    if text_beq wf wf'
    then if text_beq phase phase' then text_lt step step' else text_lt phase phase'
    else text_lt wf wf'

module _ (timestamp : Moment → ℕ) where
  -- max(0.0, now - ts): the subtraction of natural numbers ends at 0.
  unfoldable pub row_of : ℕ → ℕ → ℕ → String → Key × Moment → StaleCheckRow
  row_of now stale_after warn_after source ((wf, (phase, step)), ts) =
      let delta = now - timestamp ts in
      record {
        workflow_name = no_dash wf;
        phase = no_dash phase;
        step_name = no_dash step;
        last_updated_at = ts;
        seconds_since_last = delta;
        status = status_of_delta stale_after warn_after delta;
        source = source;
      }

module _ (fromisoformat : Text → Option Moment) where
  unfoldable pub parse_iso : Option Text → Option Moment
  parse_iso none = none
  parse_iso (some []) = none
  parse_iso (some (c ∷ text)) = fromisoformat (zone_of (c ∷ text))

  -- The loop over the records; none when the comparison raises.
  unfoldable pub latest_records : List Heartbeat → Dict Key Moment → Option (Dict Key Moment)
  latest_records [] latest = some latest
  latest_records (rec ∷ records) latest =
      with_record latest (key_of rec) (parse_iso rec.updated_at) >>= latest_records records

  module _ (timestamp : Moment → ℕ) where
    unfoldable pub check_stale_heartbeats :
        Option Text → ℕ → ℕ → ℕ → Answer → List (List (Option Heartbeat)) → Option StaleCheckReport
    check_stale_heartbeats workflow_name stale_after warn_after now answer files = do
      latest ← latest_records (records_of answer (iter_local_records workflow_name files)) []
      let items = sorted_by (λ (p q : Key × Moment). key_lt p.0 q.0) latest
      let rows = map (row_of timestamp now stale_after warn_after (source_of answer)) items
      some (record {
        workflow_name = workflow_name;
        stale_after_sec = stale_after;
        warn_after_sec = warn_after;
        rows = rows;
        status = overall rows;
      })
