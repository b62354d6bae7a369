-- ===== src/Models/Registry.antt =====
-- models/registry.py: the registry of the models, in a table of the database or, when that is not
-- reached, in a local file. The state of the database at each call is an argument.
use robot_data_harness.Common.{
  ℕ, suc, ◌&&◌, Bool, Option, none, some, List, [], ◌∷◌, map, String, ◌==◌, string_eq, Dict, get,
  put, if◌then◌else◌, ◌>>=◌, sorted_by,
}
use mathlib.Core.Option
use robot_data_harness.Models.Schemas.{
  ModelSpec, Entry, ModelRegistryRow, or_text, to_entry, from_entry, row_of_spec, from_row,
}

-- What a call finds: no engine (local mode, or a probe that fails), an engine whose statement raises
-- SQLAlchemyError, or an engine that works.
pub data Engine : Type 0 where
  no_engine : Engine
  failing : Engine
  working : Engine

-- The rows of the table under their primary key, and the models of the local file; a file that is
-- missing or not read has none.
pub record World (Json : Type 0) : Type 0 where
  pub rows : Dict String (ModelRegistryRow Json)
  pub local_models : Dict String (Entry Json)

-- A list of results, when none of them is an exception.
abbrev pub all_some {ℓ} : {A : Type ℓ} → List (Option A) → Option (List A)
all_some [] = some []
all_some (o ∷ os) = do a ← o; rest ← all_some os; some (a ∷ rest)

-- `value or None`
abbrev pub or_none : Option String → Option String
or_none none = none
or_none (some value) = if value == "" then none else some value

-- `spec.endpoint_url or base_url`, for the backend that takes it from the environment
abbrev pub endpoint_or : Option String → String → Option String → Option String
endpoint_or base_url backend none =
    if backend == "openai_compatible" then or_none base_url else none
endpoint_or base_url backend (some url) =
    if url == "" && backend == "openai_compatible" then or_none base_url else some url

module _ {Json : Type 0} where
  -- The row that is there is set, and keeps the time that it was created at.
  abbrev pub row_after : ℕ → ModelSpec Json → Option (ModelRegistryRow Json) → ModelRegistryRow Json
  row_after now spec none = row_of_spec now now spec
  row_after now spec (some row) = row_of_spec row.created_at now spec

  unfoldable pub register_db : ℕ → ModelSpec Json → World Json → ModelSpec Json × World Json
  register_db now spec world = (
    spec,
    record world {
      rows = put spec.model_id (row_after now spec (get spec.model_id world.rows)) world.rows;
    },
  )

  -- existing.get("created_at") or now
  abbrev pub created_at_of : String → Option (Entry Json) → String
  created_at_of now none = now
  created_at_of now (some entry) = or_text now entry.created_at

  unfoldable pub stamped : String → ModelSpec Json → Option (Entry Json) → ModelSpec Json
  stamped now spec existing = record spec {
    created_at = some (created_at_of now existing);
    updated_at = some now;
  }

  unfoldable pub register_local : String → ModelSpec Json → World Json → ModelSpec Json × World Json
  register_local now spec world =
      let spec' = stamped now spec (get spec.model_id world.local_models) in
      (spec', record world { local_models = put spec.model_id (to_entry spec') world.local_models })

  -- A write that fails goes to the local file; `utcnow_iso` is the text of a time in that file.
  unfoldable pub register :
      (ℕ → String) → Engine → ℕ → ModelSpec Json → World Json → ModelSpec Json × World Json
  register utcnow_iso no_engine now spec world = register_local (utcnow_iso now) spec world
  register utcnow_iso failing now spec world = register_local (utcnow_iso now) spec world
  register utcnow_iso working now spec world = register_db now spec world

  -- `isoformat` is the text of a time that is read from a row.
  module _ (empty : Json) (isoformat : ℕ → String) where
    -- The result is none when a stored description is refused, and some none when there is none.
    abbrev pub read_entry : Option (Entry Json) → Option (Option (ModelSpec Json))
    read_entry none = some none
    read_entry (some entry) = from_entry empty entry >>= (λ spec. some (some spec))

    abbrev pub read_row : Option (ModelRegistryRow Json) → Option (Option (ModelSpec Json))
    read_row none = some none
    read_row (some row) = from_row empty isoformat row >>= (λ spec. some (some spec))

    unfoldable pub get_spec : Engine → String → World Json → Option (Option (ModelSpec Json))
    get_spec no_engine model_id world = read_entry (get model_id world.local_models)
    get_spec failing model_id world = read_entry (get model_id world.local_models)
    get_spec working model_id world = read_row (get model_id world.rows)

    abbrev pub read_local : World Json → Option (List (ModelSpec Json))
    read_local world = all_some (map (λ p. from_entry empty p.1) world.local_models)

    -- `text_lt` is the order of texts in the database.
    unfoldable pub list_specs :
        (String → String → Bool) → Engine → World Json → Option (List (ModelSpec Json))
    list_specs text_lt no_engine world = read_local world
    list_specs text_lt failing world = read_local world
    list_specs text_lt working world =
        all_some
          (map (λ p. from_row empty isoformat p.1) (sorted_by (λ p q. text_lt p.0 q.0) world.rows))

  -- The loop of register_from_config over the entries of the file, of which those that are no mappings
  -- (none) are passed over; `now` counts the calls. An entry that is refused ends it, and the earlier
  -- ones stay registered.
  unfoldable pub register_from_config :
      Json
      → (ℕ → String)
      → Option String
      → (ℕ → Engine)
      → ℕ
      → List (Option (Entry Json))
      → World Json
      → Option (List (ModelSpec Json)) × World Json
  register_from_config empty utcnow_iso base_url engines now [] world = (some [], world)
  register_from_config empty utcnow_iso base_url engines now (none ∷ entries) world =
      register_from_config empty utcnow_iso base_url engines now entries world
  register_from_config empty utcnow_iso base_url engines now (some entry ∷ entries) world =
      elim (from_entry empty entry) [
        | none ↦ (none, world)
        | some spec ↦
            let sent : ModelSpec Json = record spec {
              endpoint_url = endpoint_or base_url spec.backend spec.endpoint_url;
            } in
            let (spec', world') = register utcnow_iso (engines now) now sent world in
            let (rest, last) =
              register_from_config empty utcnow_iso base_url engines (suc now) entries world' in
            (Option.map (λ specs. spec' ∷ specs) rest, last)
      ]
