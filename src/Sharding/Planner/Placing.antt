-- ===== src/Sharding/Planner/Placing.antt =====
-- One placement adds its dataset to exactly one shard, or opens one shard for it.
use robot_data_harness.Common.{
  ℕ, suc, ◌+◌, ◌≤◌, ◌<◌, String, ◌≡◌, refl, ap, subst, ◌∙◌, ◌⊎◌, inl, inr, some, List, [], ◌∷◌,
  ◌++◌, >>=-eq-some, arith, tests, length, leb, eqb, Bool-cases, Option-cases,
}
use robot_data_harness.Sharding.Model.{PlanDataset, PlanShard}
use robot_data_harness.Sharding.Planner.{
  add, first_fit, least_bytes, add_at, add_smallest, new_shard, overflow, place, place_all,
}

-- `out` is `shards` with `ds` added to one shard.
pub data Grown (ds : PlanDataset) : List PlanShard → List PlanShard → Type 0 where
  here : (s : PlanShard) (r : List PlanShard) → Grown ds (s ∷ r) (add ds s ∷ r)
  there : (s : PlanShard) {r r' : List PlanShard} → Grown ds r r' → Grown ds (s ∷ r) (s ∷ r')

pub length-Grown : {ds : PlanDataset} {r r' : List PlanShard} → Grown ds r r' → length r' ≡ length r
length-Grown (here s r) = refl
length-Grown (there s g) = ap suc (length-Grown g)

Grown-cast :
    {ds : PlanDataset} {r out out' : List PlanShard} → out ≡ out' → Grown ds r out → Grown ds r out'
Grown-cast {ds} {r} e g = subst (Grown ds r) e g

pub first_fit-Grown :
    (target : ℕ) (ds : PlanDataset) (shards : List PlanShard) {out : List PlanShard}
    → first_fit target ds shards ≡ some out
    → Grown ds shards out
unfolding first_fit
first_fit-Grown target ds [] h = cc
first_fit-Grown target ds (s ∷ shards) {out} h =
    elim (Bool-cases (leb (s.total_bytes + ds.input_bytes) target)) [
      | inl fits ↦ Grown-cast (ground (arith, fits)) (here s shards)
      | inr full ↦
          let (r, e, e') =
            >>=-eq-some (first_fit target ds shards) (λ r. some (s ∷ r)) {b = out}
              (ground (arith, full)) in
          Grown-cast (cc) (there s (first_fit-Grown target ds shards e))
    ]

-- Some shard has this total.
abbrev Has : ℕ → List PlanShard → Type 0
Has bytes [] = ⊥
Has bytes (s ∷ shards) = (s.total_bytes ≡ bytes) ⊎ Has bytes shards

least-Has : (s : PlanShard) (shards : List PlanShard) → Has (least_bytes s shards) (s ∷ shards)
unfolding least_bytes
least-Has s [] = inl refl
least-Has s (t ∷ shards) = elim (Bool-cases (leb s.total_bytes (least_bytes t shards))) [
  | inl le ↦ inl (omega (tests, le))
  | inr gt ↦ subst (λ b. Has b (s ∷ t ∷ shards)) (omega (tests, gt)) (inr (least-Has t shards))
]

add_at-Grown :
    (bytes : ℕ) (ds : PlanDataset) (shards : List PlanShard)
    → Has bytes shards
    → Grown ds shards (add_at bytes ds shards)
unfolding add_at
add_at-Grown bytes ds [] h = absurd h
add_at-Grown bytes ds (s ∷ shards) (inl e) = Grown-cast (ground (arith, e)) (here s shards)
add_at-Grown bytes ds (s ∷ shards) (inr h) = elim (Bool-cases (eqb s.total_bytes bytes)) [
  | inl same ↦ Grown-cast (ground (arith, same)) (here s shards)
  | inr other ↦ Grown-cast (ground (arith, other)) (there s (add_at-Grown bytes ds shards h))
]

pub add_smallest-Grown :
    (ds : PlanDataset) (shards : List PlanShard) {out : List PlanShard}
    → add_smallest ds shards ≡ some out
    → Grown ds shards out
unfolding add_smallest
add_smallest-Grown ds [] h = cc
add_smallest-Grown ds (s ∷ shards) h =
    Grown-cast (cc) (add_at-Grown (least_bytes s shards) ds (s ∷ shards) (least-Has s shards))

module _ (target max_shards : ℕ) (plan_id : String) where
  -- The four ways a placement ends: in a shard with room, in the smallest shard once all are open,
  -- in a new shard, or (`min` of no shards) in an error.
  pub data Placement (ds : PlanDataset) (shards out : List PlanShard) : Type 0 where
    fits : first_fit target ds shards ≡ some out → Placement ds shards out
    piled : max_shards ≤ length shards → add_smallest ds shards ≡ some out → Placement ds shards out
    opened :
        length shards < max_shards
        → out ≡ shards ++ new_shard plan_id (length shards) (ds ∷ []) ds.input_bytes ∷ []
        → Placement ds shards out

  overflow-Placement :
      (ds : PlanDataset) (shards : List PlanShard) {out : List PlanShard}
      → overflow target max_shards plan_id ds shards ≡ some out
      → Placement ds shards out
  unfolding overflow
  overflow-Placement ds shards h = elim (Bool-cases (leb max_shards (length shards))) [
    | inl at_limit ↦ piled (omega (tests, at_limit)) (ground (arith, at_limit))
    | inr below ↦ opened (omega (tests, below)) (ground (arith, below))
  ]

  pub place-Placement :
      (ds : PlanDataset) (shards : List PlanShard) {out : List PlanShard}
      → place target max_shards plan_id ds shards ≡ some out
      → Placement ds shards out
  unfolding place
  place-Placement ds shards {out} h = elim (Option-cases (first_fit target ds shards)) [
    | inl nowhere ↦ overflow-Placement ds shards (rw (nowhere, place) at h)
    | inr (placed, e) ↦ fits (e ∙ rw (e, place) at h)
  ]

  -- The rule for the outer loop.
  pub place_all_ind {ℓ} :
      (P : List PlanShard → Type ℓ)
      → ((ds : PlanDataset) (shards out : List PlanShard)
          → Placement ds shards out
          → P shards
          → P out)
      → (datasets : List PlanDataset) (shards : List PlanShard) {out : List PlanShard}
      → place_all target max_shards plan_id datasets shards ≡ some out
      → P shards
      → P out
  unfolding place_all
  place_all_ind P step [] shards h p = subst P (cc) p
  place_all_ind P step (ds ∷ datasets) shards h p =
      let (next, e, e') =
        >>=-eq-some (place target max_shards plan_id ds shards)
          (place_all target max_shards plan_id datasets) h in
      place_all_ind P step datasets next e' (step ds shards next (place-Placement ds shards e) p)
