-- ===== src/Registry/Tables/Laws.antt =====
-- What a query of a table reads after a change of it, and that the changes keep the keys unique.
use robot_data_harness.Common.{
  ℕ, ◌+◌, ◌≤◌, ◌≡◌, refl, sym, ap, ◌∙◌, inl, inr, Bool, Option, none, some, List, [], ◌∷◌, ◌++◌,
  select, count_if, sum_of-append, Eq, if◌then◌else◌, Bool-cases, Option-cases, arith, All,
}
use mathlib.Core.List.{append-nil}
use robot_data_harness.Registry.Tables.{
  find, delete_one, modify, delete_where, select_where, IsUnique,
}

pub select-append {ℓ} :
    {A : Type ℓ} (p : A → Bool) (xs ys : List A) → select p (xs ++ ys) ≡ select p xs ++ select p ys
select-append p [] ys = refl
select-append p (x ∷ xs) ys = elim (Bool-cases (p x)) [
  | inl e ↦ rw e (ap (◌∷◌ x) (select-append p xs ys))
  | inr e ↦ rw e (select-append p xs ys)
]

-- A call of f on the value that is there.
abbrev pub on_some {ℓ} : {A : Type ℓ} → (A → A) → Option A → Option A
on_some f none = none
on_some f (some a) = some (f a)

abbrev pub or_else {ℓ} : {A : Type ℓ} → Option A → Option A → Option A
or_else none b = b
or_else (some a) b = some a

module _ {ℓ κ} {R : Type ℓ} {K : Type κ} ⦃e : Eq K⦄ (key : R → K) where
  count_of : K → List R → ℕ
  count_of k rows = count_if (λ r. e.beq (key r) k) rows

  find-absent : (k : K) (rows : List R) → count_of k rows ≤ 0 → find key k rows ≡ none
  unfolding find count_of
  find-absent k [] h = refl
  find-absent k (r ∷ rows) h = ground (arith, find-absent k rows)

  count-absent : (k : K) (rows : List R) → find key k rows ≡ none → count_of k rows ≡ 0
  unfolding find count_of
  count-absent k [] h = refl
  count-absent k (r ∷ rows) h = ground (arith, h, count-absent k rows)

  find-append :
      (k : K) (rows new : List R)
      → find key k (rows ++ new) ≡ or_else (find key k rows) (find key k new)
  unfolding find
  find-append k [] new = refl
  find-append k (r ∷ rows) new = elim (Bool-cases (e.beq (key r) k)) [
    | inl h ↦ rw h refl
    | inr h ↦ rw h (find-append k rows new)
  ]

  find-delete_one :
      (j k : K) (rows : List R)
      → count_of j rows ≤ 1
      → find key j (delete_one key k rows) ≡ (if e.beq k j then none else find key j rows)
  unfolding find delete_one count_of
  find-delete_one j k [] h = ground arith
  find-delete_one j k (r ∷ rows) h = ground (
    arith,
    find-delete_one j k rows,
    find-absent j rows,
    e.beq_iff (key r) k,
    e.beq_iff (key r) j,
    e.beq_iff k j,
  )

  count-delete_one-le :
      (j k : K) (rows : List R) → count_of j (delete_one key k rows) ≤ count_of j rows
  unfolding delete_one count_of
  count-delete_one-le j k [] = omega arith
  count-delete_one-le j k (r ∷ rows) = ground (arith, count-delete_one-le j k rows)

  count-delete_one :
      (j k : K) (rows : List R)
      → count_of j rows ≤ 1
      → count_of j (delete_one key k rows) + (if e.beq k j then 1 else 0) ≤ 1
  unfolding delete_one count_of
  count-delete_one j k [] h = ground arith
  count-delete_one j k (r ∷ rows) h = ground (
    arith,
    count-delete_one j k rows,
    count-delete_one-le j k rows,
    e.beq_iff (key r) k,
    e.beq_iff (key r) j,
    e.beq_iff k j,
  )

  -- The row takes the place of the one with its key, and no other key reads another row.
  pub find-replace :
      (j : K) (r : R) (rows : List R)
      → IsUnique key rows
      → find key j (delete_one key (key r) rows ++ r ∷ [])
        ≡ (if e.beq (key r) j then some r else find key j rows)
  unfolding find count_of
  find-replace j r rows h =
      rw
        (find-append j (delete_one key (key r) rows) (r ∷ []), find-delete_one j (key r) rows (h j))
        (elim (Bool-cases (e.beq (key r) j)) [
          | inl q ↦ rw q refl
          | inr q ↦
              rw q (elim (Option-cases (find key j rows)) [
                | inl n ↦ rw n refl
                | inr (a, n) ↦ rw n refl
              ])
        ])

  pub replace-IsUnique :
      (r : R) (rows : List R)
      → IsUnique key rows
      → IsUnique key (delete_one key (key r) rows ++ r ∷ [])
  unfolding count_of
  replace-IsUnique r rows h j =
      rw
        (sum_of-append (λ r. if e.beq (key r) j then 1 else 0) (delete_one key (key r) rows)
          (r ∷ []))
        (omega (arith, count-delete_one j (key r) rows (h j)))

  pub find-modify :
      (j k : K) (f : R → R) (rows : List R)
      → ((r : R) → key (f r) ≡ key r)
      → find key j (modify key k f rows)
        ≡ (if e.beq k j then on_some f (find key j rows) else find key j rows)
  unfolding find modify
  find-modify j k f [] h = ground arith
  find-modify j k f (r ∷ rows) h = ground (
    arith,
    find-modify j k f rows h,
    h r,
    e.beq_iff (key r) k,
    e.beq_iff (key r) j,
    e.beq_iff k j,
  )

  count-modify :
      (j k : K) (f : R → R) (rows : List R)
      → ((r : R) → key (f r) ≡ key r)
      → count_of j (modify key k f rows) ≡ count_of j rows
  unfolding modify count_of
  count-modify j k f [] h = refl
  count-modify j k f (r ∷ rows) h = ground (arith, count-modify j k f rows h, h r)

  pub modify-IsUnique :
      (k : K) (f : R → R) (rows : List R)
      → ((r : R) → key (f r) ≡ key r)
      → IsUnique key rows
      → IsUnique key (modify key k f rows)
  unfolding count_of
  modify-IsUnique k f rows h u j = omega (arith, count-modify j k f rows h, u j)

  -- A row with a new key reads at its key alone.
  pub find-insert :
      (j : K) (r : R) (rows : List R)
      → find key (key r) rows ≡ none
      → find key j (rows ++ r ∷ []) ≡ (if e.beq (key r) j then some r else find key j rows)
  unfolding find
  find-insert j r rows h = rw (find-append j rows (r ∷ [])) (elim (Bool-cases (e.beq (key r) j)) [
    | inl q ↦
        let same = ap (λ k. find key k rows) ((e.beq_iff (key r) j).0 q) in
        rw (q, sym same ∙ h) refl
    | inr q ↦
        rw q (elim (Option-cases (find key j rows)) [ inl n ↦ rw n refl | inr (a, n) ↦ rw n refl ])
  ])

  pub insert-IsUnique :
      (r : R) (rows : List R)
      → find key (key r) rows ≡ none
      → IsUnique key rows
      → IsUnique key (rows ++ r ∷ [])
  unfolding count_of
  insert-IsUnique r rows h u j =
      rw (sum_of-append (λ r. if e.beq (key r) j then 1 else 0) rows (r ∷ []))
        (elim (Bool-cases (e.beq (key r) j)) [
          | inl q ↦
              let same = ap (λ k. count_of k rows) ((e.beq_iff (key r) j).0 q) in
              rw q (omega (arith, same, count-absent (key r) rows h))
          | inr q ↦ rw q (omega (arith, u j))
        ])

  select-delete_where :
      (j k : K) (rows : List R)
      → select_where key j (delete_where key k rows)
        ≡ (if e.beq k j then [] else select_where key j rows)
  unfolding select_where delete_where
  select-delete_where j k [] = ground arith
  select-delete_where j k (r ∷ rows) =
      ground (
        arith,
        select-delete_where j k rows,
        e.beq_iff (key r) k,
        e.beq_iff (key r) j,
        e.beq_iff k j,
      )

  select_where-new :
      (j k : K) (rows : List R)
      → All (λ r. key r ≡ k) rows
      → select_where key j rows ≡ (if e.beq k j then rows else [])
  unfolding select_where
  select_where-new j k [] h = ground arith
  select_where-new j k (r ∷ rows) (h, hs) =
      ground (arith, h, select_where-new j k rows hs, e.beq_iff (key r) j, e.beq_iff k j)

  -- The rows of a key after they are deleted and new ones stand for them.
  pub select-replace :
      (j k : K) (rows new : List R)
      → All (λ r. key r ≡ k) new
      → select_where key j (delete_where key k rows ++ new)
        ≡ (if e.beq k j then new else select_where key j rows)
  unfolding select_where
  select-replace j k rows new h =
      rw
        (
          select-append (λ r. e.beq (key r) j) (delete_where key k rows) new,
          select-delete_where j k rows,
          select_where-new j k new h,
        )
        (elim (Bool-cases (e.beq k j)) [ inl q ↦ rw q refl | inr q ↦ rw q (append-nil _) ])
