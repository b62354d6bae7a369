-- ===== src/Registry/Tables.antt =====
-- One table of the registry with the queries that the service makes of it. A table is the list of its
-- rows in the order of their ids, which the database hands out in the order of the inserts.
pub mod Laws
use robot_data_harness.Common.{
  ℕ, ◌+◌, ◌≤◌, ◌≡◌, refl, ap, ◌∙◌, inl, inr, Bool, true, false, not, Option, none, some, List, [],
  ◌∷◌, ◌++◌, select, count_if, sum_of-append, Eq, if◌then◌else◌, Bool-cases, Option-cases, arith,
}

module _ {ℓ κ} {R : Type ℓ} {K : Type κ} ⦃e : Eq K⦄ (key : R → K) where
  -- session.scalar(select(Row).where(Row.key == k))
  unfoldable pub find : K → List R → Option R
  find k [] = none
  find k (r ∷ rows) = if e.beq (key r) k then some r else find k rows

  -- session.delete(existing), for the row that `find` gives
  unfoldable pub delete_one : K → List R → List R
  delete_one k [] = []
  delete_one k (r ∷ rows) = if e.beq (key r) k then rows else r ∷ delete_one k rows

  -- The attributes of the row that `find` gives are set.
  unfoldable pub modify : K → (R → R) → List R → List R
  modify k f [] = []
  modify k f (r ∷ rows) = if e.beq (key r) k then f r ∷ rows else r ∷ modify k f rows

  -- session.execute(delete(Row).where(Row.key == k))
  unfoldable pub delete_where : K → List R → List R
  delete_where k rows = select (λ r. not (e.beq (key r) k)) rows

  -- session.scalars(select(Row).where(Row.key == k).order_by(Row.id.asc())).all()
  unfoldable pub select_where : K → List R → List R
  select_where k rows = select (λ r. e.beq (key r) k) rows

  -- No two rows have one key.
  abbrev pub IsUnique : List R → Type κ
  IsUnique rows = (k : K) → count_if (λ r. e.beq (key r) k) rows ≤ 1
