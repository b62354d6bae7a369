-- ===== src/Sla/Scope.antt =====
-- Which datasets a policy is about.
use robot_data_harness.Common.{
  ◌≡◌, refl, sym, ◌∙◌, inl, inr, Bool, true, false, not, ◌&&◌, ◌||◌, Option, none, some, List, [],
  ◌∷◌, ◌++◌, Text, text_beq, text_beq_iff, any, All, All-append, All-map, Bool-cases, Option-cases,
  arith,
}
use robot_data_harness.Sla.{
  SlaPolicy, ScopeRow, Scoped, same_key, scoped_of, matches, add_scoped, add_scopes,
  select_datasets,
}

-- No two datasets of the list have the same id and version.
abbrev pub AreDistinct : List Scoped → Type 0
AreDistinct [] = Unit
AreDistinct (s ∷ out) = (any (same_key s) out ≡ false) × AreDistinct out

text_beq_sym : (s t : Text) → text_beq s t ≡ text_beq t s
text_beq_sym [] [] = refl
text_beq_sym [] (c ∷ t) = refl
text_beq_sym (c ∷ s) [] = refl
text_beq_sym (b ∷ s) (c ∷ t) = ground (arith, text_beq_sym s t)

same_key_sym : (s t : Scoped) → same_key s t ≡ same_key t s
same_key_sym s t =
    ground (arith, text_beq_sym s.dataset_id t.dataset_id, text_beq_sym s.version t.version)

any-append : (p : Scoped → Bool) (xs ys : List Scoped) → any p (xs ++ ys) ≡ (any p xs || any p ys)
any-append p [] ys = refl
any-append p (x ∷ xs) ys = ground (arith, any-append p xs ys)

-- A new key at the end keeps the keys distinct.
append-AreDistinct :
    (out : List Scoped) (s : Scoped)
    → AreDistinct out
    → any (same_key s) out ≡ false
    → AreDistinct (out ++ s ∷ [])
append-AreDistinct [] s d h = (refl, tt)
append-AreDistinct (t ∷ out) s d h = (
  any-append (same_key t) out (s ∷ []) ∙ ground (arith, d.0, h, same_key_sym s t),
  append-AreDistinct out s d.1 (ground (arith, h)),
)

module _ {Rate : Type 0} (fnmatch : Text → Text → Bool) (policy : SlaPolicy Rate) where
  -- The datasets are distinct and match the policy.
  abbrev pub IsScope : List Scoped → Type 0
  IsScope out = AreDistinct out × All (λ s. matches fnmatch policy s ≡ true) out

  add_scoped-IsScope :
      (found : Option Scoped) (out : List Scoped)
      → IsScope out
      → IsScope (add_scoped fnmatch policy found out)
  unfolding add_scoped
  add_scoped-IsScope none out h = h
  add_scoped-IsScope (some s) out (d, m) = elim (Bool-cases (matches fnmatch policy s)) [
    | inr e ↦ rw e (d, m)
    | inl e ↦ elim (Bool-cases (any (same_key s) out)) [
      | inl seen ↦ rw (e, seen) (d, m)
      | inr new ↦ rw (e, new) (append-AreDistinct out s d new, All-append _ out (s ∷ []) m (e, tt))
    ]
  ]

  add_scopes-IsScope :
      (rows : List ScopeRow) (out : List Scoped)
      → IsScope out
      → IsScope (add_scopes fnmatch policy rows out)
  unfolding add_scopes
  add_scopes-IsScope [] out h = h
  add_scopes-IsScope (r ∷ rows) out h =
      add_scopes-IsScope rows (add_scoped fnmatch policy (scoped_of r) out)
        (add_scoped-IsScope (scoped_of r) out h)

  -- A policy is checked for each dataset and version at most once, and only for those that match its
  -- family and its pattern, whatever rows the dashboard and the dimension table have.
  pub select_datasets-IsScope :
      (ads_rows dim_rows : List ScopeRow)
      → IsScope (select_datasets fnmatch policy ads_rows dim_rows)
  unfolding select_datasets
  select_datasets-IsScope ads_rows dim_rows =
      add_scopes-IsScope dim_rows (add_scopes fnmatch policy ads_rows [])
        (add_scopes-IsScope ads_rows [] (tt, tt))

  -- A row that names its dataset and version and that matches has its key in the list.
  abbrev pub IsChecked : List Scoped → ScopeRow → Type 0
  IsChecked out r =
      elim (scoped_of r) [
        | none ↦ true
        | some s ↦ not (matches fnmatch policy s) || any (same_key s) out
      ]
      ≡ true

  same_key_refl : (s : Scoped) → same_key s s ≡ true
  same_key_refl s = ground (
    arith,
    (text_beq_iff s.dataset_id s.dataset_id).1 refl,
    (text_beq_iff s.version s.version).1 refl,
  )

  add_scoped-keeps :
      (found : Option Scoped) (t : Scoped) (out : List Scoped)
      → any (same_key t) out ≡ true
      → any (same_key t) (add_scoped fnmatch policy found out) ≡ true
  unfolding add_scoped
  add_scoped-keeps none t out h = h
  add_scoped-keeps (some s) t out h =
      elim (Bool-cases (matches fnmatch policy s && not (any (same_key s) out))) [
        | inl e ↦ rw (e, any-append (same_key t) out (s ∷ []), h) refl
        | inr e ↦ rw e h
      ]

  add_scopes-keeps :
      (rows : List ScopeRow) (t : Scoped) (out : List Scoped)
      → any (same_key t) out ≡ true
      → any (same_key t) (add_scopes fnmatch policy rows out) ≡ true
  unfolding add_scopes
  add_scopes-keeps [] t out h = h
  add_scopes-keeps (r ∷ rows) t out h =
      add_scopes-keeps rows t (add_scoped fnmatch policy (scoped_of r) out)
        (add_scoped-keeps (scoped_of r) t out h)

  -- A matching dataset is in the list after its turn: it was there, or it is added.
  add_scoped-holds :
      (s : Scoped) (out : List Scoped)
      → matches fnmatch policy s ≡ true
      → any (same_key s) (add_scoped fnmatch policy (some s) out) ≡ true
  unfolding add_scoped
  add_scoped-holds s out m = elim (Bool-cases (any (same_key s) out)) [
    | inl e ↦ rw (m, e) e
    | inr e ↦ rw (m, e, any-append (same_key s) out (s ∷ []), e, same_key_refl s) refl
  ]

  IsChecked-more :
      (before after : List Scoped)
      → ((t : Scoped) → any (same_key t) before ≡ true → any (same_key t) after ≡ true)
      → (r : ScopeRow) → IsChecked before r
      → IsChecked after r
  IsChecked-more before after more r h = elim (Option-cases (scoped_of r)) [
    | inl e ↦ rw e refl
    | inr (s, e) ↦ elim (Bool-cases (matches fnmatch policy s)) [
      | inr m ↦ rw (e, m) refl
      | inl m ↦ rw (e, m) (more s (sym (rw (e, m) refl) ∙ h))
    ]
  ]

  IsChecked-by :
      (out : List Scoped) (r : ScopeRow) {s : Scoped}
      → scoped_of r ≡ some s
      → any (same_key s) out ≡ true
      → IsChecked out r
  IsChecked-by out r {s} e h = rw e (ground (arith, h))

  add_scopes-IsChecked :
      (rows : List ScopeRow) (out : List Scoped)
      → All (IsChecked (add_scopes fnmatch policy rows out)) rows
  unfolding add_scopes
  add_scopes-IsChecked [] out = tt
  add_scopes-IsChecked (r ∷ rows) out =
      let next = add_scoped fnmatch policy (scoped_of r) out in
      (
        elim (Option-cases (scoped_of r)) [
          | inl e ↦ rw e refl
          | inr (s, e) ↦ elim (Bool-cases (matches fnmatch policy s)) [
            | inr m ↦ rw (e, m) refl
            | inl m ↦
                let held : any (same_key s) next ≡ true = rw e (add_scoped-holds s out m) in
                IsChecked-by (add_scopes fnmatch policy rows next) r e
                  (add_scopes-keeps rows s next held)
          ]
        ],
        add_scopes-IsChecked rows next,
      )

  -- No dataset is forgotten: each row of the dashboard and of the dimension table that names a dataset
  -- and a version and that matches the policy is checked under its key.
  pub select_datasets-IsChecked :
      (ads_rows dim_rows : List ScopeRow)
      → All (IsChecked (select_datasets fnmatch policy ads_rows dim_rows)) ads_rows
        × All (IsChecked (select_datasets fnmatch policy ads_rows dim_rows)) dim_rows
  unfolding select_datasets
  select_datasets-IsChecked ads_rows dim_rows =
      let boards = add_scopes fnmatch policy ads_rows [] in
      (
        All-map (IsChecked boards) (IsChecked (add_scopes fnmatch policy dim_rows boards))
            (IsChecked-more boards (add_scopes fnmatch policy dim_rows boards)
              (λ t h. add_scopes-keeps dim_rows t boards h))
            ads_rows (add_scopes-IsChecked ads_rows []),
        add_scopes-IsChecked dim_rows boards,
      )
