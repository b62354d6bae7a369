-- ===== src/Sharding/Plan/Totals.antt =====
-- The totals that a plan states, and the lookup of its shards.
use robot_data_harness.Common.{
  ℕ, zero, suc, ◌+◌, ◌≡◌, refl, ◌∙◌, sym, ap, some, List, [], ◌∷◌, >>=-eq-some, arith, length,
  get_elem?, sum_of, sum_of-append, sum_of-perm, length-perm, All, String,
}
use robot_data_harness.Sharding.Model.{
  PlanDataset, PlanShard, EtlPlan, index, find_index, get_shard,
}
use robot_data_harness.Sharding.Planner.{pack_into_shards}
use robot_data_harness.Sharding.Planner.Bounds.{IsAccounted, pack-IsAccounted}
use robot_data_harness.Sharding.Planner.Contents.{held, pack-perm, IsNumbered, pack-IsNumbered}
use robot_data_harness.Sharding.Plan.{PlanRequest, Surroundings, chosen, or_nil, id_or, plan_etl}

sum_of-total_bytes :
    (shards : List PlanShard)
    → All IsAccounted shards
    → sum_of (λ s. s.total_bytes) shards ≡ sum_of (λ d. d.input_bytes) (held shards)
sum_of-total_bytes [] h = refl
sum_of-total_bytes (s ∷ shards) h = omega (
  arith,
  h.0,
  sum_of-total_bytes shards h.1,
  sum_of-append (λ (d : PlanDataset). d.input_bytes) s.datasets (held shards),
)

find_index-IsNumbered :
    (plan_id : String) (k i j : ℕ) (shards : List PlanShard)
    → j ≡ k + i
    → IsNumbered plan_id k shards
    → find_index j shards ≡ get_elem? shards i
unfolding find_index
find_index-IsNumbered plan_id k i j [] e h = refl
find_index-IsNumbered plan_id k zero j (s ∷ shards) e h = ground arith
find_index-IsNumbered plan_id k (suc i) j (s ∷ shards) e h =
    ground (arith, find_index-IsNumbered plan_id (suc k) i j shards (omega arith) h.3)

module _ {Gb : Type 0} (world : Surroundings Gb) (r : PlanRequest Gb) {plan : EtlPlan}
    (planned : plan_etl world r ≡ some plan) where
  abbrev filtered : List PlanDataset
  filtered =
      chosen world (or_nil r.include_patterns) (or_nil r.exclude_patterns)
        (world.discover r.root_uri)

  abbrev new_id : String
  new_id = id_or r.plan_id world.new_plan_id

  -- What a finished plan is made of.
  finished :
      (pack_into_shards (world.bytes_of_gb r.target_shard_size_gb) r.max_shards new_id filtered
        ≡ some plan.shards)
      × (plan.total_bytes ≡ sum_of (λ d. d.input_bytes) filtered)
      × (plan.total_datasets ≡ length filtered)
  unfolding plan_etl
  finished =
      let (shards, e, e') =
        >>=-eq-some
          (pack_into_shards (world.bytes_of_gb r.target_shard_size_gb) r.max_shards new_id filtered)
          _ planned in
      (e ∙ ap some (ground arith), ground arith, ground arith)

  -- The plan's `total_bytes` is the sum of the totals of its shards.
  pub plan_etl-total_bytes : plan.total_bytes ≡ sum_of (λ s. s.total_bytes) plan.shards
  plan_etl-total_bytes = omega (
    arith,
    finished.1,
    sum_of-total_bytes plan.shards (pack-IsAccounted _ _ _ filtered finished.0),
    sum_of-perm (λ (d : PlanDataset). d.input_bytes) (pack-perm _ _ _ filtered finished.0),
  )

  -- `get_shard(i)` of a plan is its i-th shard, and None past the end.
  pub get_shard-plan_etl : (i : ℕ) → get_shard plan (index i) ≡ get_elem? plan.shards i
  unfolding get_shard
  get_shard-plan_etl i =
      find_index-IsNumbered new_id 0 i i plan.shards (omega arith)
        (pack-IsNumbered _ _ new_id filtered finished.0)

  -- The plan's shards hold as many datasets as `total_datasets` says.
  pub plan_etl-held : length (held plan.shards) ≡ plan.total_datasets
  plan_etl-held = length-perm (pack-perm _ _ new_id filtered finished.0) ∙ sym finished.2
