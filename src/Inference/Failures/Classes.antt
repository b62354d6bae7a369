-- ===== src/Inference/Failures/Classes.antt =====
-- The class of a message that begins with the name of an error.
use robot_data_harness.Common.{
  ℕ, ◌≡◌, ◌≢◌, refl, ◌⊎◌, inl, inr, Bool, true, false, not, some, [], ◌∷◌, ◌++◌, All, arith, Text,
  eqb, select, Bool-cases,
}
use robot_data_harness.Inference.Failures.{
  before_colon, lstrip, rstrip, keep_last, all_alnum, isalnum, without_underscores, classify_head,
  classify_error, known_error_prefixes, text_in,
}

module _ (is_space is_alnum : ℕ → Bool) where
  -- A character of a name: alphanumeric or `_`, and neither white space nor `:`.
  abbrev pub IsNameChar : ℕ → Type 0
  IsNameChar c = (c ≢ b':') × (is_space c ≡ false) × ((is_alnum c ≡ true) ⊎ (c ≡ b'_'))

  before_colon-name : (h rest : Text) → All IsNameChar h → before_colon (h ++ b':' ∷ rest) ≡ h
  unfolding before_colon
  before_colon-name [] rest n = refl
  before_colon-name (c ∷ h) rest n = ground (arith, n.0.0, before_colon-name h rest n.1)

  lstrip-name : (h : Text) → All IsNameChar h → lstrip is_space is_alnum h ≡ h
  unfolding lstrip
  lstrip-name [] n = refl
  lstrip-name (c ∷ h) n = rw n.0.1

  keep_last-name : (c : ℕ) (t : Text) → is_space c ≡ false → keep_last is_space is_alnum c t ≡ c ∷ t
  keep_last-name c [] e = rw e
  keep_last-name c (d ∷ t) e = refl

  rstrip-name : (h : Text) → All IsNameChar h → rstrip is_space is_alnum h ≡ h
  unfolding rstrip
  rstrip-name [] n = refl
  rstrip-name (c ∷ h) n = rw (rstrip-name h n.1) (keep_last-name c h n.0.1)

  all_alnum-name :
      (h : Text)
      → All IsNameChar h
      → all_alnum is_space is_alnum (select (λ c. not (eqb c b'_')) h) ≡ true
  all_alnum-name [] n = refl
  all_alnum-name (c ∷ h) n = ground (arith, n.0.2, all_alnum-name h n.1)

  isalnum-some :
      (t : Text)
      → all_alnum is_space is_alnum t ≡ true
      → t ≢ []
      → isalnum is_space is_alnum t ≡ true
  unfolding isalnum
  isalnum-some [] a e = absurd (e refl)
  isalnum-some (c ∷ t) a e = a

  classify_head-name :
      (h : Text)
      → All IsNameChar h
      → select (λ c. not (eqb c b'_')) h ≢ []
      → classify_head is_space is_alnum h ≡ h
  unfolding classify_head without_underscores
  classify_head-name [] n some_char = absurd (some_char refl)
  classify_head-name (c ∷ h) n some_char =
      elim (Bool-cases (text_in (c ∷ h) known_error_prefixes)) [
        | inl e ↦ rw e
        | inr e ↦ rw (e, isalnum-some _ (all_alnum-name (c ∷ h) n) some_char)
      ]

  -- A message `NAME: rest`, where NAME consists of letters, digits and underscores and is not of
  -- underscores alone, has the class NAME: the three known prefixes and any exception's name alike.
  pub classify_error-name :
      (h rest : Text)
      → All IsNameChar h
      → select (λ c. not (eqb c b'_')) h ≢ []
      → classify_error is_space is_alnum (some (h ++ b':' ∷ rest)) ≡ h
  unfolding classify_error
  classify_error-name [] rest n some_char = absurd (some_char refl)
  classify_error-name (c ∷ h) rest n some_char =
      rw (before_colon-name (c ∷ h) rest n, lstrip-name (c ∷ h) n, rstrip-name (c ∷ h) n)
        (classify_head-name (c ∷ h) n some_char)
