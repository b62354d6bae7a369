-- ===== src/Models/Schemas.antt =====
-- models/schemas.py: the whole of a model's description, as a dictionary of JSON and as a row of the
-- database. A missing entry is none; Json is the type of the dictionaries that are only stored, and
-- `empty` the one without entries. What raises KeyError or ValueError has no result.
use robot_data_harness.Common.{
  ℕ, Bool, ◌&&◌, Option, none, some, List, [], ◌∷◌, eqb, String, ◌==◌, one_of, if◌then◌else◌, ◌>>=◌,
}

pub record ModelSpec (Json : Type 0) : Type 0 where
  pub model_id : String
  pub model_name : String
  pub model_type : String
  pub backend : String
  pub endpoint_url : Option String
  pub input_schema : Json
  pub output_schema : Json
  pub max_batch_size : ℕ
  pub timeout_sec : ℕ
  pub status : String
  pub tags : Json
  pub created_at : Option String
  pub updated_at : Option String

-- The dictionary of ModelSpec.to_dict.
pub record Entry (Json : Type 0) : Type 0 where
  pub model_id : Option String
  pub model_name : Option String
  pub model_type : Option String
  pub backend : Option String
  pub endpoint_url : Option String
  pub input_schema : Option Json
  pub output_schema : Option Json
  pub max_batch_size : Option ℕ
  pub timeout_sec : Option ℕ
  pub status : Option String
  pub tags : Option Json
  pub created_at : Option String
  pub updated_at : Option String

-- A row of the table model_registry; a datetime is its number of microseconds.
pub record ModelRegistryRow (Json : Type 0) : Type 0 where
  pub model_id : String
  pub model_name : String
  pub model_type : String
  pub backend : String
  pub endpoint_url : Option String
  pub input_schema_json : Option Json
  pub output_schema_json : Option Json
  pub max_batch_size : Option ℕ
  pub timeout_sec : Option ℕ
  pub status : String
  pub tags_json : Option Json
  pub created_at : ℕ
  pub updated_at : ℕ

-- `value or default` on texts, numbers and dictionaries
abbrev pub or_text : String → Option String → String
or_text default none = default
or_text default (some value) = if value == "" then default else value

abbrev pub or_number : ℕ → Option ℕ → ℕ
or_number default none = default
or_number default (some value) = if eqb value 0 then default else value

abbrev pub or_empty {ℓ} : {A : Type ℓ} → A → Option A → A
or_empty empty none = empty
or_empty empty (some value) = value

abbrev pub model_types : List String
model_types = "caption" ∷ "embedding" ∷ "anomaly_scorer" ∷ "vlm" ∷ "llm" ∷ "mock" ∷ []

abbrev pub backends : List String
backends = "mock" ∷ "local_cpu" ∷ "openai_compatible" ∷ "autodl_worker" ∷ "http_json" ∷ []

abbrev pub model_statuses : List String
model_statuses = "ACTIVE" ∷ "DISABLED" ∷ "INACTIVE" ∷ "DEPRECATED" ∷ []

module _ {Json : Type 0} where
  unfoldable pub is_allowed : ModelSpec Json → Bool
  is_allowed spec =
      one_of spec.model_type model_types
      && (one_of spec.backend backends && one_of spec.status model_statuses)

  -- The check of __post_init__.
  unfoldable pub post_init : ModelSpec Json → Option (ModelSpec Json)
  post_init spec = if is_allowed spec then some spec else none

  unfoldable pub to_entry : ModelSpec Json → Entry Json
  to_entry spec = record {
    model_id = some spec.model_id;
    model_name = some spec.model_name;
    model_type = some spec.model_type;
    backend = some spec.backend;
    endpoint_url = spec.endpoint_url;
    input_schema = some spec.input_schema;
    output_schema = some spec.output_schema;
    max_batch_size = some spec.max_batch_size;
    timeout_sec = some spec.timeout_sec;
    status = some spec.status;
    tags = some spec.tags;
    created_at = spec.created_at;
    updated_at = spec.updated_at;
  }

  -- from_dict of a dictionary that has a model_id
  unfoldable pub spec_of_entry : Json → String → Entry Json → ModelSpec Json
  spec_of_entry empty model_id entry = record {
    model_id = model_id;
    model_name = or_text model_id entry.model_name;
    model_type = or_text "mock" entry.model_type;
    backend = or_text "mock" entry.backend;
    endpoint_url = entry.endpoint_url;
    input_schema = or_empty empty entry.input_schema;
    output_schema = or_empty empty entry.output_schema;
    max_batch_size = or_number 32 entry.max_batch_size;
    timeout_sec = or_number 60 entry.timeout_sec;
    status = or_text "ACTIVE" entry.status;
    tags = or_empty empty entry.tags;
    created_at = entry.created_at;
    updated_at = entry.updated_at;
  }

  unfoldable pub from_entry : Json → Entry Json → Option (ModelSpec Json)
  from_entry empty entry = do
    model_id ← entry.model_id
    post_init (spec_of_entry empty model_id entry)

  -- A row with the columns of to_row_kwargs.
  unfoldable pub row_of_spec : ℕ → ℕ → ModelSpec Json → ModelRegistryRow Json
  row_of_spec created_at updated_at spec = record {
    model_id = spec.model_id;
    model_name = spec.model_name;
    model_type = spec.model_type;
    backend = spec.backend;
    endpoint_url = spec.endpoint_url;
    input_schema_json = some spec.input_schema;
    output_schema_json = some spec.output_schema;
    max_batch_size = some spec.max_batch_size;
    timeout_sec = some spec.timeout_sec;
    status = spec.status;
    tags_json = some spec.tags;
    created_at = created_at;
    updated_at = updated_at;
  }

  -- `isoformat` is that of datetime.
  unfoldable pub from_row : Json → (ℕ → String) → ModelRegistryRow Json → Option (ModelSpec Json)
  from_row empty isoformat row = post_init (record {
    model_id = row.model_id;
    model_name = row.model_name;
    model_type = row.model_type;
    backend = row.backend;
    endpoint_url = row.endpoint_url;
    input_schema = or_empty empty row.input_schema_json;
    output_schema = or_empty empty row.output_schema_json;
    max_batch_size = or_number 32 row.max_batch_size;
    timeout_sec = or_number 60 row.timeout_sec;
    status = row.status;
    tags = or_empty empty row.tags_json;
    created_at = some (isoformat row.created_at);
    updated_at = some (isoformat row.updated_at);
  })
