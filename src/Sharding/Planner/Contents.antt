-- ===== src/Sharding/Planner/Contents.antt =====
-- What the shards hold: each dataset once, under consecutive indices; and when the packing fails.
use mathlib.Core.List.Perm
use mathlib.Core.List.{Perm, append_assoc, append-nil, perm_middle, perm_append_singleton}
use robot_data_harness.Common.{
  ℕ, suc, ◌+◌, String, ◌≡◌, refl, subst, some, List, [], ◌∷◌, ◌++◌, >>=-eq-some, arith, length,
  sorted_desc, sym, ap, sorted_desc-perm,
}
use robot_data_harness.Sharding.Model.{PlanDataset, PlanShard, new_shard_id}
use robot_data_harness.Sharding.Planner.{
  add, new_shard, place, place_all, or_empty_shard, pack_into_shards,
}
use robot_data_harness.Sharding.Planner.Placing.{
  Grown, here, there, first_fit-Grown, add_smallest-Grown, Placement, fits, piled, opened,
  place-Placement, place_all_ind,
}

-- The datasets of all shards, in order.
abbrev pub held : List PlanShard → List PlanDataset
held [] = []
held (s ∷ shards) = s.datasets ++ held shards

held-append : (xs ys : List PlanShard) → held (xs ++ ys) ≡ held xs ++ held ys
held-append [] ys = refl
held-append (x ∷ xs) ys = rw (held-append xs ys) (sym (append_assoc x.datasets (held xs) (held ys)))

Grown-perm :
    {ds : PlanDataset} {r r' : List PlanShard} → Grown ds r r' → Perm (held r') (ds ∷ held r)
unfolding add
Grown-perm {ds} (here s r) =
    rw (append_assoc s.datasets (ds ∷ []) (held r)) (perm_middle s.datasets (held r))
Grown-perm {ds} (there s {r} {r'} g) =
    Perm.trans (Perm.append_left s.datasets (Grown-perm g)) (perm_middle s.datasets (held r))

-- The shards stand under the indices `k`, `k + 1`, …, and are named for them.
abbrev pub IsNumbered : String → ℕ → List PlanShard → Type 0
IsNumbered plan_id k [] = Unit
IsNumbered plan_id k (s ∷ shards) =
    (s.shard_index ≡ k)
    × (s.shard_id ≡ new_shard_id plan_id k)
    × (s.status ≡ "PENDING")
    × IsNumbered plan_id (suc k) shards

Grown-IsNumbered :
    {ds : PlanDataset} (plan_id : String) (k : ℕ) {r r' : List PlanShard}
    → Grown ds r r'
    → IsNumbered plan_id k r
    → IsNumbered plan_id k r'
unfolding add
Grown-IsNumbered plan_id k (here s r) h = h
Grown-IsNumbered plan_id k (there s g) h = (h.0, h.1, h.2, Grown-IsNumbered plan_id (suc k) g h.3)

snoc-IsNumbered :
    (plan_id : String) (k : ℕ) (shards : List PlanShard) (ds : List PlanDataset) (n b : ℕ)
    → n ≡ k + length shards
    → IsNumbered plan_id k shards
    → IsNumbered plan_id k (shards ++ new_shard plan_id n ds b ∷ [])
unfolding new_shard
snoc-IsNumbered plan_id k [] ds n b e h =
    let e' : n ≡ k = omega arith in (e', ap (new_shard_id plan_id) e', refl, tt)
snoc-IsNumbered plan_id k (s ∷ shards) ds n b e h =
    (h.0, h.1, h.2, snoc-IsNumbered plan_id (suc k) shards ds n b (omega arith) h.3)

module _ (target max_shards : ℕ) (plan_id : String) where
  Placement-perm :
      (ds : PlanDataset) (shards out : List PlanShard)
      → Placement target max_shards plan_id ds shards out
      → Perm (held out) (ds ∷ held shards)
  unfolding new_shard
  Placement-perm ds shards out (fits e) = Grown-perm (first_fit-Grown target ds shards e)
  Placement-perm ds shards out (piled _ e) = Grown-perm (add_smallest-Grown ds shards e)
  Placement-perm ds shards out (opened _ e) =
      rw (e, held-append shards) (perm_append_singleton ds (held shards))

  place_all-perm :
      (datasets : List PlanDataset) (shards : List PlanShard) {out : List PlanShard}
      → place_all target max_shards plan_id datasets shards ≡ some out
      → Perm (held out) (datasets ++ held shards)
  unfolding place_all
  place_all-perm [] shards {out} h =
      subst (λ o. Perm (held o) (held shards)) {x = shards} {y = out} (cc) (Perm.refl (held shards))
  place_all-perm (ds ∷ datasets) shards h =
      let (next, e, e') =
        >>=-eq-some (place target max_shards plan_id ds shards)
          (place_all target max_shards plan_id datasets) h in
      Perm.trans (place_all-perm datasets next e') (
        Perm.trans
          (Perm.append_left datasets
            (Placement-perm ds shards next (place-Placement target max_shards plan_id ds shards e)))
          (perm_middle datasets (held shards)))

  step-IsNumbered :
      (ds : PlanDataset) (shards out : List PlanShard)
      → Placement target max_shards plan_id ds shards out
      → IsNumbered plan_id 0 shards
      → IsNumbered plan_id 0 out
  step-IsNumbered ds shards out (fits e) h =
      Grown-IsNumbered plan_id 0 (first_fit-Grown target ds shards e) h
  step-IsNumbered ds shards out (piled _ e) h =
      Grown-IsNumbered plan_id 0 (add_smallest-Grown ds shards e) h
  step-IsNumbered ds shards out (opened _ e) h =
      subst (IsNumbered plan_id 0) (sym e) (snoc-IsNumbered plan_id 0 shards _ _ _ (omega arith) h)

  held-or_empty_shard :
      (r : List PlanShard) → held (or_empty_shard target max_shards plan_id r) ≡ held r
  unfolding or_empty_shard new_shard
  held-or_empty_shard [] = refl
  held-or_empty_shard (s ∷ r) = refl

  or_empty_shard-IsNumbered :
      (r : List PlanShard)
      → IsNumbered plan_id 0 r
      → IsNumbered plan_id 0 (or_empty_shard target max_shards plan_id r)
  unfolding or_empty_shard new_shard
  or_empty_shard-IsNumbered [] h = (refl, refl, refl, tt)
  or_empty_shard-IsNumbered (s ∷ r) h = h

  -- If the packing returns, the datasets of its shards together are a permutation of the input: none
  -- is lost and none is doubled.
  pub pack-perm :
      (datasets : List PlanDataset) {shards : List PlanShard}
      → pack_into_shards target max_shards plan_id datasets ≡ some shards
      → Perm (held shards) datasets
  unfolding pack_into_shards
  pack-perm datasets {shards} packed =
      let (r, e, e') =
        >>=-eq-some
          (place_all target max_shards plan_id (sorted_desc (λ d. d.input_bytes) datasets) [])
          (λ r. some (or_empty_shard target max_shards plan_id r)) packed in
      let same : or_empty_shard target max_shards plan_id r ≡ shards = cc in
      subst (λ s. Perm (held s) datasets) same
        (rw held-or_empty_shard (
          Perm.trans (rw append-nil at (place_all-perm _ [] e))
            (sorted_desc-perm (λ d. d.input_bytes) datasets)))

  pub pack-IsNumbered :
      (datasets : List PlanDataset) {shards : List PlanShard}
      → pack_into_shards target max_shards plan_id datasets ≡ some shards
      → IsNumbered plan_id 0 shards
  unfolding pack_into_shards
  pack-IsNumbered datasets packed =
      let (r, e, e') =
        >>=-eq-some
          (place_all target max_shards plan_id (sorted_desc (λ d. d.input_bytes) datasets) [])
          (λ r. some (or_empty_shard target max_shards plan_id r)) packed in
      subst (IsNumbered plan_id 0) (cc) (
        or_empty_shard-IsNumbered r (
          place_all_ind target max_shards plan_id (IsNumbered plan_id 0) step-IsNumbered _ [] e tt))
