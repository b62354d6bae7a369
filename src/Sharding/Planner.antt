-- ===== src/Sharding/Planner.antt =====
-- src/robot_dh/sharding/planner.py: the first-fit-decreasing packing, and the plan.
pub mod Placing
pub mod Bounds
pub mod Contents
pub mod Failure
use robot_data_harness.Common.{
  ℕ, zero, suc, ◌+◌, min, String, Bool, not, ◌&&◌, ◌||◌, Option, none, some, List, [], ◌∷◌, ◌++◌,
  ◌>>=◌, length, leb, eqb, any, select, sum_of, sorted_desc, if◌then◌else◌,
}
use robot_data_harness.Sharding.Model.{PlanDataset, PlanShard, EtlPlan, new_shard_id}

-- shard.datasets.append(ds); shard.total_bytes += ds.input_bytes
pub add : PlanDataset → PlanShard → PlanShard
add ds s = record s {
  datasets = s.datasets ++ ds ∷ [];
  total_bytes = s.total_bytes + ds.input_bytes;
}

-- The inner loop, with its `break`; `none` stands for `placed = False`.
pub first_fit : ℕ → PlanDataset → List PlanShard → Option (List PlanShard)
unfolding add
first_fit target ds [] = none
first_fit target ds (s ∷ shards) =
    if leb (s.total_bytes + ds.input_bytes) target
    then some (add ds s ∷ shards)
    else (do placed ← first_fit target ds shards; some (s ∷ placed))

-- min(shards, key=lambda s: s.total_bytes) is the first shard with the least total.
pub least_bytes : PlanShard → List PlanShard → ℕ
least_bytes s [] = s.total_bytes
least_bytes s (t ∷ shards) = min s.total_bytes (least_bytes t shards)

pub add_at : ℕ → PlanDataset → List PlanShard → List PlanShard
unfolding add
add_at bytes ds [] = []
add_at bytes ds (s ∷ shards) =
    if eqb s.total_bytes bytes then add ds s ∷ shards else s ∷ add_at bytes ds shards

-- `min` of no shards raises ValueError: `none`.
pub add_smallest : PlanDataset → List PlanShard → Option (List PlanShard)
unfolding least_bytes add_at
add_smallest ds [] = none
add_smallest ds (s ∷ shards) = some (add_at (least_bytes s shards) ds (s ∷ shards))

pub new_shard : String → ℕ → List PlanDataset → ℕ → PlanShard
new_shard plan_id idx datasets bytes = record {
  shard_id = new_shard_id plan_id idx;
  shard_index = idx;
  datasets = datasets;
  total_bytes = bytes;
  status = "PENDING";
}

module _ (target max_shards : ℕ) (plan_id : String) where
  -- What is done with a dataset that fits nowhere.
  pub overflow : PlanDataset → List PlanShard → Option (List PlanShard)
  unfolding new_shard add_smallest
  overflow ds shards =
      if leb max_shards (length shards)
      then add_smallest ds shards
      else some (shards ++ new_shard plan_id (length shards) (ds ∷ []) ds.input_bytes ∷ [])

  pub place : PlanDataset → List PlanShard → Option (List PlanShard)
  unfolding first_fit overflow
  place ds shards = elim (first_fit target ds shards) [
    | some placed ↦ some placed
    | none ↦ overflow ds shards
  ]

  pub place_all : List PlanDataset → List PlanShard → Option (List PlanShard)
  unfolding place
  place_all [] shards = some shards
  place_all (ds ∷ rest) shards = do placed ← place ds shards; place_all rest placed

  -- At least one shard, also when there is no data.
  pub or_empty_shard : List PlanShard → List PlanShard
  unfolding new_shard
  or_empty_shard [] = new_shard plan_id 0 [] 0 ∷ []
  or_empty_shard (s ∷ shards) = s ∷ shards

  -- `none` is the ValueError of `min`.
  unfoldable pub pack_into_shards : List PlanDataset → Option (List PlanShard)
  unfolding place_all or_empty_shard
  pack_into_shards datasets = do
    shards ← place_all (sorted_desc (λ d. d.input_bytes) datasets) []
    some (or_empty_shard shards)
