-- ===== src/Sharding/Planner/Bounds.antt =====
-- The size of the shards: their number, their totals and the target.
use robot_data_harness.Common.{
  ℕ, ◌+◌, ◌≤◌, ◌<◌, max, String, ◌≡◌, refl, ◌⊎◌, inl, inr, subst, some, List, [], ◌∷◌, >>=-eq-some,
  arith, tests, length, length-append, leb, Bool-cases, All, All-append, sum_of, sum_of-append,
  sorted_desc, sym, ap,
}
use robot_data_harness.Sharding.Model.{PlanDataset, PlanShard}
use robot_data_harness.Sharding.Planner.{
  add, first_fit, new_shard, place_all, or_empty_shard, pack_into_shards,
}
use robot_data_harness.Sharding.Planner.Placing.{
  Grown, here, there, length-Grown, first_fit-Grown, add_smallest-Grown, Placement, fits, piled,
  opened, place_all_ind,
}

-- The total of a shard is the sum of its datasets.
abbrev pub IsAccounted : PlanShard → Type 0
IsAccounted s = s.total_bytes ≡ sum_of (λ d. d.input_bytes) s.datasets

-- A shard above the target holds one dataset.
abbrev pub FitsTarget : ℕ → PlanShard → Type 0
FitsTarget target s = (s.total_bytes ≤ target) ⊎ (length s.datasets ≤ 1)

add-IsAccounted : (ds : PlanDataset) (s : PlanShard) → IsAccounted s → IsAccounted (add ds s)
unfolding add
add-IsAccounted ds s h =
    omega (arith, h, sum_of-append (λ (d : PlanDataset). d.input_bytes) s.datasets (ds ∷ []))

Grown-IsAccounted :
    {ds : PlanDataset} {r r' : List PlanShard}
    → Grown ds r r'
    → All IsAccounted r
    → All IsAccounted r'
Grown-IsAccounted {ds} (here s r) h = (add-IsAccounted ds s h.0, h.1)
Grown-IsAccounted (there s g) h = (h.0, Grown-IsAccounted g h.1)

first_fit-FitsTarget :
    (target : ℕ) (ds : PlanDataset) (shards : List PlanShard) {out : List PlanShard}
    → first_fit target ds shards ≡ some out
    → All (FitsTarget target) shards
    → All (FitsTarget target) out
unfolding first_fit add
first_fit-FitsTarget target ds [] h a = cc
first_fit-FitsTarget target ds (s ∷ shards) {out} h a =
    elim (Bool-cases (leb (s.total_bytes + ds.input_bytes) target)) [
      | inl room ↦
          subst (All (FitsTarget target)) {x = add ds s ∷ shards} (ground (arith, room))
            (let p : FitsTarget target (add ds s) = inl (omega (tests, room)) in (p, a.1))
      | inr full ↦
          let (r, e, e') =
            >>=-eq-some (first_fit target ds shards) (λ r. some (s ∷ r)) {b = out}
              (ground (arith, full)) in
          subst (All (FitsTarget target)) {x = s ∷ r} (cc) (
            let q : All (FitsTarget target) (s ∷ r) =
              (a.0, first_fit-FitsTarget target ds shards e a.1) in
            q)
    ]

module _ (target max_shards : ℕ) (plan_id : String) where
  step-IsAccounted :
      (ds : PlanDataset) (shards out : List PlanShard)
      → Placement target max_shards plan_id ds shards out
      → All IsAccounted shards
      → All IsAccounted out
  unfolding new_shard
  step-IsAccounted ds shards out (fits e) h =
      Grown-IsAccounted (first_fit-Grown target ds shards e) h
  step-IsAccounted ds shards out (piled _ e) h =
      Grown-IsAccounted (add_smallest-Grown ds shards e) h
  step-IsAccounted ds shards out (opened _ e) h =
      subst (All IsAccounted) (sym e) (All-append IsAccounted shards _ h (omega arith, tt))

  step-length :
      (ds : PlanDataset) (shards out : List PlanShard)
      → Placement target max_shards plan_id ds shards out
      → length shards ≤ max max_shards 1
      → length out ≤ max max_shards 1
  step-length ds shards out (fits e) h =
      omega (arith, length-Grown (first_fit-Grown target ds shards e))
  step-length ds shards out (piled _ e) h =
      omega (arith, length-Grown (add_smallest-Grown ds shards e))
  step-length ds shards out (opened below e) h = omega (
    arith,
    ap (length {A = PlanShard}) e,
    length-append {0} shards (new_shard plan_id (length shards) (ds ∷ []) ds.input_bytes ∷ []),
  )

  abbrev RoomOrFits : List PlanShard → Type 0
  RoomOrFits shards = length shards < max_shards → All (FitsTarget target) shards

  step-RoomOrFits :
      (ds : PlanDataset) (shards out : List PlanShard)
      → Placement target max_shards plan_id ds shards out
      → RoomOrFits shards
      → RoomOrFits out
  unfolding new_shard
  step-RoomOrFits ds shards out (fits e) h room =
      first_fit-FitsTarget target ds shards e
        (h (omega (arith, length-Grown (first_fit-Grown target ds shards e))))
  step-RoomOrFits ds shards out (piled limit e) h room =
      absurd (omega (arith, length-Grown (add_smallest-Grown ds shards e)))
  step-RoomOrFits ds shards out (opened below e) h room =
      subst (All (FitsTarget target)) (sym e)
        (All-append (FitsTarget target) shards _ (h below) (inr (omega arith), tt))

  or_empty_shard-All :
      (P : PlanShard → Type 0) (shards : List PlanShard)
      → P (new_shard plan_id 0 [] 0)
      → All P shards
      → All P (or_empty_shard target max_shards plan_id shards)
  unfolding or_empty_shard
  or_empty_shard-All P [] p h = (p, tt)
  or_empty_shard-All P (s ∷ shards) p h = h

  or_empty_shard-length :
      (r : List PlanShard)
      → length r ≤ max max_shards 1
      → (1 ≤ length (or_empty_shard target max_shards plan_id r))
        × (length (or_empty_shard target max_shards plan_id r) ≤ max max_shards 1)
  unfolding or_empty_shard
  or_empty_shard-length [] h = omega arith
  or_empty_shard-length (s ∷ r) h = omega arith

  or_empty_shard-length-le :
      (r : List PlanShard) → length r ≤ length (or_empty_shard target max_shards plan_id r)
  unfolding or_empty_shard
  or_empty_shard-length-le [] = omega arith
  or_empty_shard-length-le (s ∷ r) = omega arith

  module _ (datasets : List PlanDataset) {shards : List PlanShard}
      (packed : pack_into_shards target max_shards plan_id datasets ≡ some shards) where
    -- The loop's result, before the empty shard is put in.
    placed_shards :
        (r : List PlanShard) × (place_all target max_shards plan_id
            (sorted_desc (λ d. d.input_bytes) datasets)
            []
          ≡ some r)
        × (or_empty_shard target max_shards plan_id r ≡ shards)
    unfolding pack_into_shards
    placed_shards =
        let (r, e, e') =
          >>=-eq-some
            (place_all target max_shards plan_id (sorted_desc (λ d. d.input_bytes) datasets) [])
            (λ r. some (or_empty_shard target max_shards plan_id r)) packed in
        (r, e, cc)

    -- After a packing each shard's `total_bytes` is the sum of the `input_bytes` of its datasets.
    pub pack-IsAccounted : All IsAccounted shards
    unfolding new_shard
    pack-IsAccounted =
        let (r, e, e') = placed_shards in
        subst (All IsAccounted) e' (
          or_empty_shard-All _ r refl
            (place_all_ind target max_shards plan_id (All IsAccounted) step-IsAccounted _ [] e tt))

    -- A packing that returns has at least one shard, and at most `max_shards` (one, if that is 0).
    pub pack-length : (1 ≤ length shards) × (length shards ≤ max max_shards 1)
    pack-length =
        let (r, e, e') = placed_shards in
        subst (λ s. (1 ≤ length s) × (length s ≤ max max_shards 1)) e'
          (or_empty_shard-length r (
            place_all_ind target max_shards plan_id (λ s. length s ≤ max max_shards 1) step-length _
              [] e (omega arith)))

    -- If the packing returns fewer than `max_shards` shards, each of them keeps its total within the
    -- target or holds one dataset at most.
    pub pack-FitsTarget : length shards < max_shards → All (FitsTarget target) shards
    unfolding new_shard
    pack-FitsTarget room =
        let (r, e, e') = placed_shards in
        subst (All (FitsTarget target)) e' (
          or_empty_shard-All _ r (inl (omega arith)) (
            place_all_ind target max_shards plan_id RoomOrFits step-RoomOrFits _ [] e (λ _. tt)
              (omega (arith, or_empty_shard-length-le r, ap (length {A = PlanShard}) e'))))
