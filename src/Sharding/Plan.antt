-- ===== src/Sharding/Plan.antt =====
-- src/robot_dh/sharding/planner.py: `plan_etl`, from the discovered datasets to the plan. The
-- discovery reads the object store or the disk; its result is an argument, and so are `fnmatch`, the
-- clock, the fresh id and the product `int(target_shard_size_gb * 1024**3)` of floats.
pub mod Totals
use robot_data_harness.Common.{
  ℕ, String, Bool, not, ◌&&◌, ◌||◌, Option, none, some, List, [], ◌∷◌, ◌>>=◌, length, any, select,
  sum_of, if◌then◌else◌, ◌==◌,
}
use robot_data_harness.Sharding.Model.{PlanDataset, EtlPlan}
use robot_data_harness.Sharding.Planner.{pack_into_shards}

pub record PlanRequest (Gb : Type 0) : Type 0 where
  pub root_uri : String
  pub lake_root : String
  pub target_shard_size_gb : Gb
  pub max_shards : ℕ
  pub include_patterns : Option (List String)
  pub exclude_patterns : Option (List String)
  pub plan_id : Option String

-- `xs or []`
abbrev or_nil : Option (List String) → List String
or_nil none = []
or_nil (some xs) = xs

-- `plan_id or new_plan_id()`
abbrev id_or : Option String → String → String
id_or none fresh = fresh
id_or (some id) fresh = if id == "" then fresh else id

abbrev is_nil : List String → Bool
is_nil [] = Bool.true
is_nil (_ ∷ _) = Bool.false

pub record Surroundings (Gb : Type 0) : Type 0 where
  pub fnmatch : String → String → Bool
  pub discover : String → List PlanDataset
  pub bytes_of_gb : Gb → ℕ
  pub now : String
  pub new_plan_id : String

module _ {Gb : Type 0} (world : Surroundings Gb) where
  -- _matches_any
  pub matches_any : String → List String → Bool
  matches_any name patterns = any (λ p. world.fnmatch name p) patterns

  pub matches : List String → PlanDataset → Bool
  unfolding matches_any
  matches patterns d = matches_any d.dataset_id patterns || matches_any d.dataset_uri patterns

  -- The two filters: `exclude` wins, and no `include` means every dataset.
  unfoldable pub chosen : List String → List String → List PlanDataset → List PlanDataset
  unfolding matches
  chosen incl excl datasets =
      let included = if is_nil incl then datasets else select (matches incl) datasets in
      if is_nil excl then included else select (λ d. not (matches excl d)) included

  -- `none` is the ValueError of the packing.
  unfoldable pub plan_etl : PlanRequest Gb → Option EtlPlan
  unfolding chosen pack_into_shards
  plan_etl r = do
    let target_bytes = world.bytes_of_gb r.target_shard_size_gb
    let plan_id = id_or r.plan_id world.new_plan_id
    let incl = or_nil r.include_patterns
    let excl = or_nil r.exclude_patterns
    let datasets = chosen incl excl (world.discover r.root_uri)
    shards ← pack_into_shards target_bytes r.max_shards plan_id datasets
    some (record {
      plan_id = plan_id;
      created_at = world.now;
      root_uri = r.root_uri;
      lake_root = r.lake_root;
      target_shard_size_bytes = target_bytes;
      total_datasets = length datasets;
      total_bytes = sum_of (λ d. d.input_bytes) datasets;
      shards = shards;
      include_patterns = incl;
      exclude_patterns = excl;
    })
