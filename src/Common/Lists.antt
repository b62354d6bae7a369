-- ===== src/Common/Lists.antt =====
-- Lists measured and indexed by native numbers, under the library's names, and Python's
-- `sorted(…, reverse=True)` and `sorted(…)`.
use Prim.Native.Nat.{ℕ, zero, suc, ◌+◌, ◌-◌, ◌≤◌}
use mathlib.Core.Path.{◌≡◌, refl, ap, ◌∙◌, sym}
use mathlib.Core.Bool.{Bool, false, ◌||◌}
use mathlib.Core.List.{List, [], ◌∷◌, ◌++◌, Perm, map}
use mathlib.Core.List.Perm
use mathlib.Core.Option.{Option, none, some}
use native.Mathlib.Omega.{arith}
use robot_data_harness.Common.Tests.{ltb, if◌then◌else◌, Bool-cases}
use mathlib.Core.Logic.{inl, inr, ∥∥₁_elim}
use native.Mathlib.Nat.{ℕ_set}
use mathlib.Core.List.{Permᴰ}

module _ {ℓ} {A : Type ℓ} where
  abbrev pub length : List A → ℕ
  length [] = 0
  length (x ∷ xs) = suc (length xs)

  abbrev pub get_elem? : List A → ℕ → Option A
  get_elem? [] i = none
  get_elem? (x ∷ xs) zero = some x
  get_elem? (x ∷ xs) (suc i) = get_elem? xs i

  abbrev pub take : ℕ → List A → List A
  take zero xs = []
  take (suc n) [] = []
  take (suc n) (x ∷ xs) = x ∷ take n xs

  abbrev pub drop : ℕ → List A → List A
  drop zero xs = xs
  drop (suc n) [] = []
  drop (suc n) (x ∷ xs) = drop n xs

  pub take-append-drop : (n : ℕ) (xs : List A) → take n xs ++ drop n xs ≡ xs
  take-append-drop zero xs = refl
  take-append-drop (suc n) [] = refl
  take-append-drop (suc n) (x ∷ xs) = ap (◌∷◌ x) (take-append-drop n xs)

  pub length-append : (xs ys : List A) → length (xs ++ ys) ≡ length xs + length ys
  length-append [] ys = omega arith
  length-append (x ∷ xs) ys = omega (arith, length-append xs ys)

  pub length-drop : (n : ℕ) (xs : List A) → length (drop n xs) ≡ length xs - n
  length-drop zero xs = omega arith
  length-drop (suc n) [] = omega arith
  length-drop (suc n) (x ∷ xs) = omega (arith, length-drop n xs)

  pub length-take-le : (n : ℕ) (xs : List A) → length (take n xs) ≤ n
  length-take-le zero xs = omega arith
  length-take-le (suc n) [] = omega arith
  length-take-le (suc n) (x ∷ xs) = omega (arith, length-take-le n xs)

  abbrev pub any : (A → Bool) → List A → Bool
  any p [] = false
  any p (x ∷ xs) = p x || any p xs

  -- A comprehension `[x for x in xs if p(x)]`.
  abbrev pub select : (A → Bool) → List A → List A
  select p [] = []
  select p (x ∷ xs) = if p x then x ∷ select p xs else select p xs

  abbrev pub sum_of : (A → ℕ) → List A → ℕ
  sum_of f [] = 0
  sum_of f (x ∷ xs) = f x + sum_of f xs

  -- `sum(1 for x in xs if p(x))`
  abbrev pub count_if : (A → Bool) → List A → ℕ
  count_if p xs = sum_of (λ x. if p x then 1 else 0) xs

  pub sum_of-append : (f : A → ℕ) (xs ys : List A) → sum_of f (xs ++ ys) ≡ sum_of f xs + sum_of f ys
  sum_of-append f [] ys = omega arith
  sum_of-append f (x ∷ xs) ys = omega (arith, sum_of-append f xs ys)

  -- Stable: an item stands behind the later items that are larger, and before its equals.
  pub insert_desc : (A → ℕ) → A → List A → List A
  insert_desc key x [] = x ∷ []
  insert_desc key x (y ∷ ys) = if ltb (key x) (key y) then y ∷ insert_desc key x ys else x ∷ y ∷ ys

  -- sorted(xs, key=key, reverse=True)
  unfoldable pub sorted_desc : (A → ℕ) → List A → List A
  unfolding insert_desc
  sorted_desc key [] = []
  sorted_desc key (x ∷ xs) = insert_desc key x (sorted_desc key xs)

  insert_desc-perm : (key : A → ℕ) (x : A) (ys : List A) → Perm (insert_desc key x ys) (x ∷ ys)
  unfolding insert_desc
  insert_desc-perm key x [] = Perm.refl (x ∷ [])
  insert_desc-perm key x (y ∷ ys) = elim (Bool-cases (ltb (key x) (key y))) [
    | inl e ↦ rw e (Perm.trans (Perm.cons y (insert_desc-perm key x ys)) (Perm.swap x y ys))
    | inr e ↦ rw e (Perm.refl (x ∷ y ∷ ys))
  ]

  pub sorted_desc-perm : (key : A → ℕ) (xs : List A) → Perm (sorted_desc key xs) xs
  unfolding sorted_desc
  sorted_desc-perm key [] = Perm.refl []
  sorted_desc-perm key (x ∷ xs) =
      Perm.trans (insert_desc-perm key x (sorted_desc key xs))
        (Perm.cons x (sorted_desc-perm key xs))

  length-insert_desc :
      (key : A → ℕ) (x : A) (ys : List A) → length (insert_desc key x ys) ≡ suc (length ys)
  unfolding insert_desc
  length-insert_desc key x [] = refl
  length-insert_desc key x (y ∷ ys) = ground (arith, length-insert_desc key x ys)

  pub length-sorted_desc : (key : A → ℕ) (xs : List A) → length (sorted_desc key xs) ≡ length xs
  unfolding sorted_desc
  length-sorted_desc key [] = refl
  length-sorted_desc key (x ∷ xs) =
      omega (arith, length-insert_desc key x (sorted_desc key xs), length-sorted_desc key xs)

  sum_of-permᴰ : (f : A → ℕ) {xs ys : List A} → Permᴰ xs ys → sum_of f xs ≡ sum_of f ys
  sum_of-permᴰ f Permᴰ.nil = refl
  sum_of-permᴰ f (Permᴰ.cons e p) = omega (arith, ap f e, sum_of-permᴰ f p)
  sum_of-permᴰ f (Permᴰ.swap e e') = omega (arith, ap f e, ap f e')
  sum_of-permᴰ f (Permᴰ.trans p q) = sum_of-permᴰ f p ∙ sum_of-permᴰ f q

  pub sum_of-perm : (f : A → ℕ) {xs ys : List A} → Perm xs ys → sum_of f xs ≡ sum_of f ys
  sum_of-perm f p = ∥∥₁_elim p (ℕ_set _ _) (sum_of-permᴰ f)

  sum_of-one : (xs : List A) → sum_of (λ _. 1) xs ≡ length xs
  sum_of-one [] = refl
  sum_of-one (x ∷ xs) = omega (arith, sum_of-one xs)

  pub length-perm : {xs ys : List A} → Perm xs ys → length xs ≡ length ys
  length-perm {xs} {ys} p = sym (sum_of-one xs) ∙ (sum_of-perm (λ _. 1) p ∙ sum_of-one ys)

abbrev pub concat {ℓ} : {A : Type ℓ} → List (List A) → List A
concat [] = []
concat (b ∷ bs) = b ++ concat bs

module _ {ℓ κ} {A : Type ℓ} {B : Type κ} where
  pub sum_of-map :
      (f : B → ℕ) (g : A → B) (xs : List A) → sum_of f (map g xs) ≡ sum_of (λ x. f (g x)) xs
  sum_of-map f g [] = refl
  sum_of-map f g (x ∷ xs) = omega (arith, sum_of-map f g xs)

  pub length-map : (g : A → B) (xs : List A) → length (map g xs) ≡ length xs
  length-map g [] = refl
  length-map g (x ∷ xs) = ap suc (length-map g xs)
