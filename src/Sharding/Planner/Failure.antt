-- ===== src/Sharding/Planner/Failure.antt =====
-- When the packing fails: `min` of no shards raises ValueError.
use robot_data_harness.Common.{
  ℕ, ◌<◌, String, ◌≡◌, refl, ◌≢◌, inl, inr, none, some, List, [], ◌∷◌, ◌↔◌, arith, tests, length,
  leb, Bool-cases, Option-cases, length-sorted_desc, sorted_desc, ◌⊎◌,
}
use robot_data_harness.Sharding.Model.{PlanDataset, PlanShard}
use robot_data_harness.Sharding.Planner.{
  first_fit, add_smallest, overflow, place, place_all, or_empty_shard, pack_into_shards,
}

module _ (target max_shards : ℕ) (plan_id : String) where
  place-ne-none :
      (ds : PlanDataset) (shards : List PlanShard)
      → 0 < max_shards
      → place target max_shards plan_id ds shards ≢ none
  unfolding place overflow add_smallest
  place-ne-none ds [] pos = ground (arith, first_fit target ds [])
  place-ne-none ds (s ∷ shards) pos = ground (arith, first_fit target ds (s ∷ shards))

  place-some :
      (ds : PlanDataset) (shards : List PlanShard)
      → 0 < max_shards
      → (out : List PlanShard) × (place target max_shards plan_id ds shards ≡ some out)
  place-some ds shards pos = elim (Option-cases (place target max_shards plan_id ds shards)) [
    | inl e ↦ absurd (place-ne-none ds shards pos e)
    | inr found ↦ found
  ]

  place_all-some :
      (datasets : List PlanDataset) (shards : List PlanShard)
      → 0 < max_shards
      → (out : List PlanShard) × (place_all target max_shards plan_id datasets shards ≡ some out)
  unfolding place_all
  place_all-some [] shards pos = (shards, refl)
  place_all-some (ds ∷ datasets) shards pos =
      let (next, e) = place-some ds shards pos in
      let (out, e') = place_all-some datasets next pos in (out, rw e e')

  place_all-none :
      (datasets : List PlanDataset)
      → max_shards ≡ 0
      → length datasets ≢ 0
      → place_all target max_shards plan_id datasets [] ≡ none
  unfolding place_all place overflow add_smallest first_fit
  place_all-none [] e h = absurd (h refl)
  place_all-none (ds ∷ datasets) e h = ground arith

  place_all-empty :
      (datasets : List PlanDataset)
      → length datasets ≡ 0
      → place_all target max_shards plan_id datasets [] ≡ some []
  unfolding place_all
  place_all-empty [] z = refl
  place_all-empty (ds ∷ datasets) z = absurd (omega arith)

  -- The packing returns exactly when `max_shards` is positive or there are no datasets.
  pub pack-returns_iff :
      (datasets : List PlanDataset)
      → ((shards : List PlanShard) × (pack_into_shards target max_shards plan_id datasets
            ≡ some shards))
        ↔ ((0 < max_shards) ⊎ (length datasets ≡ 0))
  unfolding pack_into_shards
  pack-returns_iff datasets = (λ (shards, e). positive_or_empty e, returns)
    where
      by_size : PlanDataset → ℕ
      by_size d = d.input_bytes

      positive_or_empty :
          {shards : List PlanShard}
          → pack_into_shards target max_shards plan_id datasets ≡ some shards
          → (0 < max_shards) ⊎ (length datasets ≡ 0)
      positive_or_empty e = elim (Bool-cases (leb max_shards 0)) [
        | inr pos ↦ inl (omega (tests, pos))
        | inl z ↦ elim (Bool-cases (leb (length datasets) 0)) [
          | inl empty ↦ inr (omega (tests, empty))
          | inr more ↦ cc (
            e,
            place_all-none (sorted_desc by_size datasets) (omega (tests, z))
                (omega (tests, more, length-sorted_desc by_size datasets)),
          )
        ]
      ]

      returns :
          (0 < max_shards) ⊎ (length datasets ≡ 0)
          → (shards : List PlanShard) × (pack_into_shards target max_shards plan_id datasets
              ≡ some shards)
      returns (inl pos) =
          let (out, e) = place_all-some (sorted_desc by_size datasets) [] pos in
          (or_empty_shard target max_shards plan_id out, rw e)
      returns (inr z) =
          let e =
            place_all-empty (sorted_desc by_size datasets)
              (omega (arith, z, length-sorted_desc by_size datasets)) in
          (or_empty_shard target max_shards plan_id [], rw e)
