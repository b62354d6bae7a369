-- ===== src/Sharding/Model.antt =====
-- src/robot_dh/sharding/models.py and runtime/ids.py: the plan and its shards.
use robot_data_harness.Common.{
  ℕ, zero, suc, ◌/◌, ◌%◌, String, ◌≡◌, refl, Option, none, some, List, [], ◌∷◌, append, ◌==◌, eqb,
  ltb, if◌then◌else◌,
}

pub record PlanDataset : Type 0 where
  pub dataset_id : String
  pub version : String
  pub dataset_uri : String
  pub input_bytes : ℕ

pub record PlanShard : Type 0 where
  pub shard_id : String
  pub shard_index : ℕ
  pub datasets : List PlanDataset
  pub total_bytes : ℕ
  pub status : String

pub record EtlPlan : Type 0 where
  pub plan_id : String
  pub created_at : String
  pub root_uri : String
  pub lake_root : String
  pub target_shard_size_bytes : ℕ
  pub total_datasets : ℕ
  pub total_bytes : ℕ
  pub shards : List PlanShard
  pub include_patterns : List String
  pub exclude_patterns : List String

-- The decimal digits of a number, as `f"{n}"` writes them; `n` itself bounds the rounds.
abbrev digit : ℕ → String
digit zero = "0"
digit (suc zero) = "1"
digit (suc (suc zero)) = "2"
digit (suc (suc (suc zero))) = "3"
digit (suc (suc (suc (suc zero)))) = "4"
digit (suc (suc (suc (suc (suc zero))))) = "5"
digit (suc (suc (suc (suc (suc (suc zero)))))) = "6"
digit (suc (suc (suc (suc (suc (suc (suc zero))))))) = "7"
digit (suc (suc (suc (suc (suc (suc (suc (suc zero)))))))) = "8"
digit _ = "9"

decimal_rounds : ℕ → ℕ → String
decimal_rounds zero n = digit n
decimal_rounds (suc rounds) n =
    let rest = decimal_rounds rounds (n / 10) in
    if ltb n 10 then digit n else append rest (digit (n % 10))

unfoldable pub decimal : ℕ → String
unfolding decimal_rounds
decimal n = decimal_rounds n n

-- `f"{n:03d}"`
pub decimal3 : ℕ → String
unfolding decimal
decimal3 n =
    if ltb n 10
    then append "00" (decimal n)
    else if ltb n 100
    then append "0" (decimal n)
    else decimal n

unfoldable pub new_shard_id : String → ℕ → String
unfolding decimal3
new_shard_id plan_id shard_index = append plan_id (append "::shard-" (decimal3 shard_index))

new_shard_id_test : new_shard_id "p" 12 ≡ "p::shard-012"
unfolding new_shard_id
new_shard_id_test = refl

-- An argument `int | str`.
pub data ShardKey : Type 0 where
  index : ℕ → ShardKey
  name : String → ShardKey

unfoldable pub find_index : ℕ → List PlanShard → Option PlanShard
find_index i [] = none
find_index i (s ∷ shards) = if eqb s.shard_index i then some s else find_index i shards

unfoldable pub find_name : String → List PlanShard → Option PlanShard
find_name k [] = none
find_name k (s ∷ shards) = if s.shard_id == k then some s else find_name k shards

-- EtlPlan.get_shard
unfoldable pub get_shard : EtlPlan → ShardKey → Option PlanShard
unfolding find_index find_name
get_shard plan (index i) = find_index i plan.shards
get_shard plan (name k) = find_name k plan.shards
