-- ===== src/Common/Sorting.antt =====
-- Python's order of texts, and its stable `sorted` by an order that is given as a Boolean test.
use mathlib.Core.Bool.{Bool, true, false}
use mathlib.Core.Logic.{inl, inr}
use mathlib.Core.List.{List, [], ◌∷◌, Perm}
use mathlib.Core.List.Perm
use robot_data_harness.Common.Tests.{ltb, eqb, if◌then◌else◌, Bool-cases}
use robot_data_harness.Common.Maps.{Text}

-- The order of texts by code points.
abbrev pub text_lt : Text → Text → Bool
text_lt s [] = false
text_lt [] (c ∷ t) = true
text_lt (b ∷ s) (c ∷ t) = if eqb b c then text_lt s t else ltb b c

module _ {ℓ} {A : Type ℓ} (lt : A → A → Bool) where
  -- An item that stood earlier stays in front of its equals.
  unfoldable pub insert_by : A → List A → List A
  insert_by x [] = x ∷ []
  insert_by x (y ∷ ys) = if lt y x then y ∷ insert_by x ys else x ∷ y ∷ ys

  unfoldable pub sorted_by : List A → List A
  unfolding insert_by
  sorted_by [] = []
  sorted_by (x ∷ xs) = insert_by x (sorted_by xs)

  insert_by-perm : (x : A) (ys : List A) → Perm (insert_by x ys) (x ∷ ys)
  unfolding insert_by
  insert_by-perm x [] = Perm.refl (x ∷ [])
  insert_by-perm x (y ∷ ys) = elim (Bool-cases (lt y x)) [
    | inl e ↦ rw e (Perm.trans (Perm.cons y (insert_by-perm x ys)) (Perm.swap x y ys))
    | inr e ↦ rw e (Perm.refl (x ∷ y ∷ ys))
  ]

  pub sorted_by-perm : (xs : List A) → Perm (sorted_by xs) xs
  unfolding sorted_by
  sorted_by-perm [] = Perm.refl []
  sorted_by-perm (x ∷ xs) =
      Perm.trans (insert_by-perm x (sorted_by xs)) (Perm.cons x (sorted_by-perm xs))
