-- ===== src/Lake/Uri/Slashes.antt =====
-- The loop that removes double slashes: it ends, and what it gives.
use robot_data_harness.Common.{
  ℕ, zero, suc, ◌≤◌, ◌<◌, ◌≡◌, refl, sym, ◌∙◌, inl, inr, Bool, true, false, ◌&&◌, [], ◌∷◌, eqb,
  length, Text, Bool-cases, if◌then◌else◌, arith,
}
use robot_data_harness.Lake.Uri.{
  slash, has_double, replace_double, collapse, lstrip, rstrip, strip_cons, strip_double_slashes,
}

-- A text without the slashes that follow a slash; `after` says whether one stands in front of the text.
unfoldable pub squeeze : Bool → Text → Text
squeeze after [] = []
squeeze after (c ∷ key) = elim (eqb c slash) [
  | true ↦ elim after [ true ↦ squeeze true key | false ↦ slash ∷ squeeze true key ]
  | false ↦ c ∷ squeeze false key
]

length-replace_double-le : (key : Text) → length (replace_double key) ≤ length key
unfolding replace_double
length-replace_double-le [] = omega arith
length-replace_double-le (c ∷ []) = omega arith
length-replace_double-le (c ∷ d ∷ key) =
    ground (arith, length-replace_double-le key, length-replace_double-le (d ∷ key))

-- Each round makes the key shorter.
length-replace_double-lt :
    (key : Text) → has_double key ≡ true → length (replace_double key) < length key
unfolding replace_double has_double
length-replace_double-lt [] h = ground (arith, h)
length-replace_double-lt (c ∷ []) h = ground (arith, h)
length-replace_double-lt (c ∷ d ∷ key) h =
    ground (arith, h, length-replace_double-le key, length-replace_double-lt (d ∷ key))

has_double-collapse :
    (rounds : ℕ) (key : Text) → length key ≤ rounds → has_double (collapse rounds key) ≡ false
unfolding collapse has_double
has_double-collapse zero [] h = refl
has_double-collapse zero (c ∷ key) h = ground (arith, h)
has_double-collapse (suc rounds) key h = elim (Bool-cases (has_double key)) [
  | inl e ↦
      rw (e, collapse)
        (has_double-collapse rounds (replace_double key)
          (omega (arith, length-replace_double-lt key e, h)))
  | inr e ↦ rw (e, collapse) e
]

squeeze-replace_double :
    (after : Bool) (key : Text) → squeeze after (replace_double key) ≡ squeeze after key
unfolding replace_double squeeze
squeeze-replace_double after [] = refl
squeeze-replace_double after (c ∷ []) = refl
squeeze-replace_double true (c ∷ d ∷ key) = ground (
  arith,
  squeeze-replace_double true key,
  squeeze-replace_double true (d ∷ key),
  squeeze-replace_double false (d ∷ key),
)
squeeze-replace_double false (c ∷ d ∷ key) = ground (
  arith,
  squeeze-replace_double true key,
  squeeze-replace_double true (d ∷ key),
  squeeze-replace_double false (d ∷ key),
)

squeeze-single :
    (after : Bool) (key : Text)
    → has_double (if after then slash ∷ key else key) ≡ false
    → squeeze after key ≡ key
unfolding has_double squeeze
squeeze-single true [] h = refl
squeeze-single true (c ∷ key) h =
    ground (arith, h, squeeze-single false key, squeeze-single true key)
squeeze-single false [] h = refl
squeeze-single false (c ∷ []) h = ground arith
squeeze-single false (c ∷ d ∷ key) h =
    ground (arith, h, squeeze-single false (d ∷ key), squeeze-single true (d ∷ key))

squeeze-collapse :
    (rounds : ℕ) (key : Text) → squeeze false (collapse rounds key) ≡ squeeze false key
unfolding collapse
squeeze-collapse zero key = refl
squeeze-collapse (suc rounds) key = elim (Bool-cases (has_double key)) [
  | inl e ↦
      rw (e, collapse)
        (squeeze-collapse rounds (replace_double key) ∙ squeeze-replace_double false key)
  | inr e ↦ rw (e, collapse) refl
]

-- The loop ends within as many rounds as the key has characters: no double slash is left, and the key is
-- the given one with each run of slashes made one.
pub collapse-squeeze :
    (key : Text)
    → (has_double (collapse (length key) key) ≡ false)
      × (collapse (length key) key ≡ squeeze false key)
collapse-squeeze key =
    let ended = has_double-collapse (length key) key (omega arith) in
    (
      ended,
      sym (squeeze-single false (collapse (length key) key) ended)
          ∙ squeeze-collapse (length key) key,
    )

has_double-lstrip : (key : Text) → has_double key ≡ false → has_double (lstrip key) ≡ false
unfolding has_double lstrip
has_double-lstrip [] h = refl
has_double-lstrip (c ∷ []) h = ground (arith, h)
has_double-lstrip (c ∷ d ∷ key) h = ground (arith, h, has_double-lstrip (d ∷ key))

has_double-strip_cons :
    (c d : ℕ) (rest : Text)
    → (eqb c slash && eqb d slash) ≡ false
    → has_double (strip_cons d rest) ≡ false
    → has_double (strip_cons c (strip_cons d rest)) ≡ false
unfolding has_double
has_double-strip_cons c d [] h k = ground (arith, h, k)
has_double-strip_cons c d (e ∷ rest) h k = ground (arith, h, k)

has_double-rstrip : (key : Text) → has_double key ≡ false → has_double (rstrip key) ≡ false
unfolding has_double rstrip
has_double-rstrip [] h = refl
has_double-rstrip (c ∷ []) h = ground (arith, h)
has_double-rstrip (c ∷ d ∷ key) h =
    has_double-strip_cons c d (rstrip key) (ground (arith, h))
      (has_double-rstrip (d ∷ key) (ground (arith, h)))

lstrip-strip_cons :
    (c : ℕ) (rest : Text) → eqb c slash ≡ false → lstrip (strip_cons c rest) ≡ strip_cons c rest
unfolding lstrip
lstrip-strip_cons c [] h = ground (arith, h)
lstrip-strip_cons c (d ∷ rest) h = ground (arith, h)

rstrip-strip_cons :
    (c : ℕ) (rest : Text) → rstrip rest ≡ rest → rstrip (strip_cons c rest) ≡ strip_cons c rest
unfolding rstrip
rstrip-strip_cons c [] h = ground arith
rstrip-strip_cons c (d ∷ rest) h = rw h refl

rstrip-rstrip : (key : Text) → rstrip (rstrip key) ≡ rstrip key
unfolding rstrip
rstrip-rstrip [] = refl
rstrip-rstrip (c ∷ key) = rstrip-strip_cons c (rstrip key) (rstrip-rstrip key)

lstrip-rstrip : (key : Text) → lstrip (rstrip (lstrip key)) ≡ rstrip (lstrip key)
unfolding lstrip rstrip
lstrip-rstrip [] = refl
lstrip-rstrip (c ∷ key) = elim (Bool-cases (eqb c slash)) [
  | inl e ↦ rw e (lstrip-rstrip key)
  | inr e ↦ rw e (lstrip-strip_cons c (rstrip key) e)
]

collapse-single : (rounds : ℕ) (key : Text) → has_double key ≡ false → collapse rounds key ≡ key
unfolding collapse
collapse-single zero key h = refl
collapse-single (suc rounds) key h = rw (h, collapse) refl

-- A key that was normalised stays as it is.
pub strip_double_slashes-twice :
    (key : Text) → strip_double_slashes (strip_double_slashes key) ≡ strip_double_slashes key
unfolding strip_double_slashes
strip_double_slashes-twice key =
    let single = (collapse-squeeze key).0 in
    let stripped =
      has_double-rstrip (lstrip (collapse (length key) key)) (has_double-lstrip _ single) in
    rw
      (
        collapse-single (length (rstrip (lstrip (collapse (length key) key)))) _ stripped,
        lstrip-rstrip (collapse (length key) key),
      )
      (rstrip-rstrip (lstrip (collapse (length key) key)))
