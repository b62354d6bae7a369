-- ===== src/Backfill/Keys/Sorting.antt =====
-- When the keys can be sorted, and that sorting loses none.
use robot_data_harness.Common.{
  ◌≡◌, refl, inl, inr, Bool, true, false, not, ◌&&◌, Option, none, some, List, [], ◌∷◌, Text,
  text_beq, eqb, if◌then◌else◌, any, ltb, count_if, sum_of-perm, ap, sym, ◌∙◌, Bool-cases, arith,
}
use mathlib.Core.List.{Perm}
use mathlib.Core.List.Perm
use robot_data_harness.Backfill.Keys.{Key, key_lt, family_lt, same_run, insert_key, sorted_keys}

abbrev pub has_family : Option Text → Bool
has_family none = false
has_family (some t) = true

abbrev pub differ : Bool → Bool → Bool
differ true b = not b
differ false b = b

-- Two keys of one run, of which one has a family and the other has none.
abbrev pub clash : Key → Key → Bool
clash k j = same_run k j && differ (has_family k.family) (has_family j.family)

-- No two keys clash.
abbrev pub Agreeing : List Key → Type 0
Agreeing [] = Unit
Agreeing (k ∷ keys) = (any (clash k) keys ≡ false) × Agreeing keys

any-count_if : (p : Key → Bool) (keys : List Key) → any p keys ≡ ltb 0 (count_if p keys)
any-count_if p [] = refl
any-count_if p (k ∷ keys) = ground (arith, any-count_if p keys)

any-perm : (p : Key → Bool) {xs ys : List Key} → Perm xs ys → any p xs ≡ any p ys
any-perm p {xs} {ys} same =
    any-count_if p xs
    ∙ (ap (ltb 0) (sum_of-perm (λ k. if p k then 1 else 0) same) ∙ sym (any-count_if p ys))

family_lt-some :
    (f g : Option Text)
    → differ (has_family f) (has_family g) ≡ false
    → (b : Bool) × (family_lt f g ≡ some b)
unfolding family_lt
family_lt-some none none h = (false, refl)
family_lt-some none (some t) h = cc
family_lt-some (some s) none h = cc
family_lt-some (some s) (some t) h = (_, refl)

key_lt-some : (k j : Key) → clash k j ≡ false → (b : Bool) × (key_lt k j ≡ some b)
unfolding key_lt same_run
key_lt-some k j h = elim (Bool-cases (eqb k.dt j.dt)) [
  | inr e ↦ rw e (_, refl)
  | inl e ↦ elim (Bool-cases (text_beq k.dataset_id j.dataset_id)) [
    | inr e' ↦ rw (e, e') (_, refl)
    | inl e' ↦ elim (Bool-cases (text_beq k.version j.version)) [
      | inr v ↦ rw (e, e', v) (_, refl)
      | inl v ↦ elim (Bool-cases (text_beq k.phase j.phase)) [
        | inr p ↦ rw (e, e', v, p) (_, refl)
        | inl p ↦
            rw (e, e', v, p) (family_lt-some k.family j.family (ground (arith, h, e, e', v, p)))
      ]
    ]
  ]
]

insert_key-returns :
    (k : Key) (keys : List Key)
    → any (clash k) keys ≡ false
    → (out : List Key) × (insert_key k keys ≡ some out) × Perm out (k ∷ keys)
unfolding insert_key
insert_key-returns k [] h = (k ∷ [], refl, Perm.refl (k ∷ []))
insert_key-returns k (j ∷ keys) h =
    let (before, compared) = key_lt-some k j (ground (arith, h)) in
    let (out, placed, same) = insert_key-returns k keys (ground (arith, h)) in
    elim (Bool-cases before) [
      | inl e ↦ (k ∷ j ∷ keys, rw (compared, e) refl, Perm.refl (k ∷ j ∷ keys))
      | inr e ↦ (
        j ∷ out,
        rw (compared, e, placed) refl,
        Perm.trans (Perm.cons j same) (Perm.swap k j keys),
      )
    ]

-- Keys of which no two differ only in that one has a family and the other has none can be sorted, and
-- the sorted keys are the same keys in another order.
pub sorted_keys-perm :
    (keys : List Key)
    → Agreeing keys
    → (out : List Key) × (sorted_keys keys ≡ some out) × Perm out keys
unfolding sorted_keys
sorted_keys-perm [] h = ([], refl, Perm.refl [])
sorted_keys-perm (k ∷ keys) h =
    let (rest, sorted, same) = sorted_keys-perm keys h.1 in
    let (out, placed, same') = insert_key-returns k rest (any-perm (clash k) same ∙ h.0) in
    (out, rw (sorted, placed) refl, Perm.trans same' (Perm.cons k same))
