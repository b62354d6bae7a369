-- ===== src/Progress/Stale/Verdict.antt =====
-- The report of the check: a row for each step that was heard of, and the verdict over the rows.
use mathlib.Core.List.{Perm}
use mathlib.Core.List.Perm
use robot_data_harness.Common.{◌≡◌, refl, Bool, List, [], ◌∷◌, map, any}
use robot_data_harness.Progress.Stale.{key_eq}

any-same {ℓ} :
    {A : Type ℓ} (p q : A → Bool) → ((x : A) → p x ≡ q x) → (xs : List A) → any p xs ≡ any q xs
any-same p q h [] = refl
any-same p q h (x ∷ xs) = rw (h x, any-same p q h xs) refl

any-map {ℓ κ} :
    {A : Type ℓ} {B : Type κ} (p : B → Bool) (f : A → B) (xs : List A)
    → any p (map f xs) ≡ any (λ x. p (f x)) xs
any-map p f [] = refl
any-map p f (x ∷ xs) = rw (any-map p f xs) refl
