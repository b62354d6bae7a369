-- ===== src/Models/ReadBack.antt =====
-- Which registrations are read back.
use robot_data_harness.Common.{
  ℕ, ◌≡◌, refl, ap, inl, inr, Bool, true, false, ◌&&◌, Option, none, some, List, String, ◌==◌,
  eq_iff, string_eq, one_of, eqb, get, get-put, if◌then◌else◌, Bool-cases, Option-cases,
}
use robot_data_harness.Models.Schemas.{
  ModelSpec, Entry, ModelRegistryRow, or_text, is_allowed, model_types, backends, model_statuses,
  post_init, to_entry, spec_of_entry, from_entry, row_of_spec, from_row,
}
use robot_data_harness.Models.Registry.{
  Engine, no_engine, failing, working, World, row_after, register_db, stamped, register_local,
  register, get_spec, read_entry, read_row,
}

-- The calls read and write the same store.
abbrev pub same_store : Engine → Engine → Bool
same_store working working = true
same_store working e = false
same_store e working = false
same_store e e' = true

&&-both : (a b : Bool) → (a && b) ≡ true → (a ≡ true) × (b ≡ true)
&&-both true b h = (refl, h)
&&-both false b h = cc

or_text-allowed :
    (default s : String) (allowed : List String)
    → one_of "" allowed ≡ false
    → one_of s allowed ≡ true
    → or_text default (some s) ≡ s
or_text-allowed default s allowed h k = elim (Bool-cases (s == "")) [
  | inl q ↦ cc (ap (λ t. one_of t allowed) ((eq_iff s "").0 q), h, k)
  | inr q ↦ rw q refl
]

module _ {Json : Type 0} where
  -- A description that no default replaces when it is read: its kinds are allowed, it has a name, and
  -- its two numbers are not 0.
  pub record IsStorable (spec : ModelSpec Json) : Type 0 where
    pub allowed : is_allowed spec ≡ true
    pub named : (spec.model_name == "") ≡ false
    pub batch : eqb spec.max_batch_size 0 ≡ false
    pub timeout : eqb spec.timeout_sec 0 ≡ false

  from_entry-to_entry :
      (empty : Json) (spec : ModelSpec Json)
      → IsStorable spec
      → from_entry empty (to_entry spec) ≡ some spec
  unfolding from_entry to_entry spec_of_entry post_init is_allowed
  from_entry-to_entry empty spec s =
      let kinds = &&-both _ _ s.allowed in
      let kinds' = &&-both _ _ kinds.1 in
      let type = or_text-allowed "mock" spec.model_type model_types refl kinds.0 in
      let backend = or_text-allowed "mock" spec.backend backends refl kinds'.0 in
      let status = or_text-allowed "ACTIVE" spec.status model_statuses refl kinds'.1 in
      rw (s.named, s.batch, s.timeout, type, backend, status, s.allowed) refl

  from_row-row_of_spec :
      (empty : Json) (isoformat : ℕ → String) (spec : ModelSpec Json) (c u : ℕ)
      → IsStorable spec
      → from_row empty isoformat (row_of_spec c u spec)
        ≡ some (record spec { created_at = some (isoformat c); updated_at = some (isoformat u) })
  unfolding from_row row_of_spec post_init is_allowed
  from_row-row_of_spec empty isoformat spec c u s = rw (s.batch, s.timeout, s.allowed) refl

  stamped-IsStorable :
      (now : String) (spec : ModelSpec Json) (old : Option (Entry Json))
      → IsStorable spec
      → IsStorable (stamped now spec old)
  unfolding stamped is_allowed
  stamped-IsStorable now spec old s = record {
    allowed = s.allowed;
    named = s.named;
    batch = s.batch;
    timeout = s.timeout;
  }

  -- The time of the first registration in the file, when its entry has one.
  abbrev pub first_time : String → Option (Entry Json) → String
  first_time now none = now
  first_time now (some entry) = elim entry.created_at [
    | none ↦ now
    | some time ↦ if time == "" then now else time
  ]

  -- What a registration keeps: in the table or in the file the time of the first one, and its own.
  abbrev pub kept :
      (ℕ → String) → (ℕ → String) → Engine → ℕ → ModelSpec Json → World Json → ModelSpec Json
  kept isoformat utcnow_iso no_engine now spec world = record spec {
    created_at = some (first_time (utcnow_iso now) (get spec.model_id world.local_models));
    updated_at = some (utcnow_iso now);
  }
  kept isoformat utcnow_iso failing now spec world = record spec {
    created_at = some (first_time (utcnow_iso now) (get spec.model_id world.local_models));
    updated_at = some (utcnow_iso now);
  }
  kept isoformat utcnow_iso working now spec world = record spec {
    created_at = some (
        isoformat (elim (get spec.model_id world.rows) [ none ↦ now | some row ↦ row.created_at ]));
    updated_at = some (isoformat now);
  }

  stamped-first_time :
      (now : String) (spec : ModelSpec Json) (old : Option (Entry Json))
      → stamped now spec old
        ≡ record spec { created_at = some (first_time now old); updated_at = some now }
  unfolding stamped
  stamped-first_time now spec none = refl
  stamped-first_time now spec (some entry) = elim (Option-cases entry.created_at) [
    | inl e ↦ rw e refl
    | inr (time, e) ↦ rw e refl
  ]

  module _ (empty : Json) (isoformat utcnow_iso : ℕ → String) where
    read_row-row_after :
        (now : ℕ) (spec : ModelSpec Json) (old : Option (ModelRegistryRow Json))
        → IsStorable spec
        → read_row empty isoformat (some (row_after now spec old))
          ≡ some (
              some (record spec {
                created_at = some (isoformat (elim old [ none ↦ now | some row ↦ row.created_at ]));
                updated_at = some (isoformat now);
              }))
    read_row-row_after now spec none s =
        rw (from_row-row_of_spec empty isoformat spec now now s) refl
    read_row-row_after now spec (some row) s =
        rw (from_row-row_of_spec empty isoformat spec row.created_at now s) refl

    read-register_db :
        (now : ℕ) (spec : ModelSpec Json) (world : World Json) (model_id : String)
        → IsStorable spec
        → read_row empty isoformat (get model_id (register_db now spec world).1.rows) ≡ (
            if spec.model_id == model_id
            then some (some (kept isoformat utcnow_iso working now spec world))
            else read_row empty isoformat (get model_id world.rows))
    unfolding register_db
    read-register_db now spec world model_id s =
        rw
          (get-put spec.model_id model_id (row_after now spec (get spec.model_id world.rows))
            world.rows)
          (elim (Bool-cases (spec.model_id == model_id)) [
            | inl q ↦ rw q (read_row-row_after now spec (get spec.model_id world.rows) s)
            | inr q ↦ rw q refl
          ])

    read-register_local :
        (now : ℕ) (spec : ModelSpec Json) (world : World Json) (model_id : String)
        → IsStorable spec
        → read_entry empty isoformat
            (get model_id (register_local (utcnow_iso now) spec world).1.local_models)
          ≡ (if spec.model_id == model_id
              then some (some (kept isoformat utcnow_iso no_engine now spec world))
              else read_entry empty isoformat (get model_id world.local_models))
    unfolding register_local
    read-register_local now spec world model_id s =
        let old = get spec.model_id world.local_models in
        let spec' = stamped (utcnow_iso now) spec old in
        let read =
          from_entry-to_entry empty spec' (stamped-IsStorable (utcnow_iso now) spec old s) in
        rw (get-put spec.model_id model_id (to_entry spec') world.local_models)
          (elim (Bool-cases (spec.model_id == model_id)) [
            | inl q ↦ rw q (rw (read, stamped-first_time (utcnow_iso now) spec old) refl)
            | inr q ↦ rw q refl
          ])

    -- A description that no default replaces is read back under its id by the calls that reach the store
    -- that took it, with the time of its first registration there, and no other id reads another
    -- description. A call that reaches the other store, as when the database works again, reads what it
    -- read before.
    pub get_spec-register :
        (e e' : Engine) (now : ℕ) (spec : ModelSpec Json) (world : World Json) (model_id : String)
        → IsStorable spec
        → get_spec empty isoformat e' model_id (register utcnow_iso e now spec world).1 ≡ (
            if same_store e e' && spec.model_id == model_id
            then some (some (kept isoformat utcnow_iso e now spec world))
            else get_spec empty isoformat e' model_id world)
    unfolding get_spec register register_local register_db
    get_spec-register no_engine no_engine now spec world model_id s =
        read-register_local now spec world model_id s
    get_spec-register no_engine failing now spec world model_id s =
        read-register_local now spec world model_id s
    get_spec-register no_engine working now spec world model_id s = refl
    get_spec-register failing no_engine now spec world model_id s =
        read-register_local now spec world model_id s
    get_spec-register failing failing now spec world model_id s =
        read-register_local now spec world model_id s
    get_spec-register failing working now spec world model_id s = refl
    get_spec-register working no_engine now spec world model_id s = refl
    get_spec-register working failing now spec world model_id s = refl
    get_spec-register working working now spec world model_id s =
        read-register_db now spec world model_id s
