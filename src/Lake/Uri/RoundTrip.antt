-- ===== src/Lake/Uri/RoundTrip.antt =====
-- An address that was parsed is in a form that parses to itself.
use robot_data_harness.Common.{
  ℕ, ◌≡◌, refl, ap, ◌∙◌, inl, inr, Bool, true, false, ◌||◌, Option, none, some, [], ◌∷◌, ◌++◌, eqb,
  Text, codes, Bool-cases, Option-cases, arith,
}
use robot_data_harness.Lake.Uri.{
  slash, after_prefix, split_slash, canonical, strip_double_slashes, LakeUri, s3_uri, parse_file,
  parse_uri, local_uri,
}
use robot_data_harness.Lake.Uri.Slashes.{strip_double_slashes-twice}

-- A bucket that is split off has no slash, so that it splits off again.
split_slash-bucket :
    (rest key : Text)
    → split_slash ((split_slash rest).0 ++ slash ∷ key) ≡ ((split_slash rest).0, some key)
unfolding split_slash
split_slash-bucket [] key = refl
split_slash-bucket (c ∷ rest) key = elim (Bool-cases (eqb c slash)) [
  | inl e ↦ rw (e, split_slash) refl
  | inr e ↦ rw (e, split_slash) (rw e (ap (λ p. (c ∷ p.0, p.1)) (split_slash-bucket rest key)))
]

canonical_lem :
    (bucket key : Text) → canonical bucket key ≡ codes "s3://" ++ (bucket ++ slash ∷ key)
unfolding canonical
canonical_lem bucket [] = refl
canonical_lem bucket (c ∷ key) = refl

pub parse_uri-canonical :
    (rest key : Text)
    → parse_uri (canonical (split_slash rest).0 (strip_double_slashes key))
      ≡ s3_uri (split_slash rest).0 (strip_double_slashes key)
unfolding parse_uri after_prefix
parse_uri-canonical rest key =
    rw (canonical_lem (split_slash rest).0 (strip_double_slashes key))
      (rw (split_slash-bucket rest (strip_double_slashes key), strip_double_slashes-twice key) refl)

s3_uri-canonical :
    (bucket key : Text) (u : LakeUri) → s3_uri bucket key ≡ some u → u.uri ≡ canonical bucket key
s3_uri-canonical [] key u h = cc
s3_uri-canonical (c ∷ bucket) key u h = ground (arith, h)

-- The path of a file:// address is itself an address with a scheme.
abbrev pub is_some {ℓ} : {A : Type ℓ} → Option A → Bool
is_some none = false
is_some (some a) = true

abbrev pub nested_path : Option Text → Bool
nested_path none = false
nested_path (some path) =
    is_some (after_prefix (codes "s3://") path) || is_some (after_prefix (codes "file://") path)

abbrev pub nested : Text → Bool
nested uri = nested_path (after_prefix (codes "file://") uri)

is_some-none {ℓ} : {A : Type ℓ} (o : Option A) → is_some o ≡ false → o ≡ none
is_some-none none h = refl
is_some-none (some a) h = cc

parse_uri-local :
    (c : ℕ) (uri : Text)
    → after_prefix (codes "s3://") (c ∷ uri) ≡ none
    → after_prefix (codes "file://") (c ∷ uri) ≡ none
    → parse_uri (c ∷ uri) ≡ some (local_uri (c ∷ uri))
unfolding parse_uri
parse_uri-local c uri h k = rw (h, k) refl

local-parses :
    (c : ℕ) (uri : Text) (u : LakeUri)
    → after_prefix (codes "s3://") (c ∷ uri) ≡ none
    → after_prefix (codes "file://") (c ∷ uri) ≡ none
    → some (local_uri (c ∷ uri)) ≡ some u
    → parse_uri u.uri ≡ some u
local-parses c uri u h k p =
    let same : u.uri ≡ c ∷ uri = ground (arith, p) in
    ap parse_uri same ∙ (parse_uri-local c uri h k ∙ p)

parse_file-parses :
    (path : Text) (u : LakeUri)
    → parse_file path ≡ some u
    → nested_path (some path) ≡ false
    → parse_uri u.uri ≡ some u
parse_file-parses [] u h n = cc
parse_file-parses (c ∷ path) u h n =
    local-parses c path u (is_some-none _ (ground (arith, n))) (is_some-none _ (ground (arith, n)))
      h

-- An address that was parsed gives an address that parses to the same: its scheme, bucket, key and path
-- are those of the given one, if that is not a file:// address of another address.
pub parse_uri-uri :
    (uri : Text) (u : LakeUri)
    → parse_uri uri ≡ some u
    → nested uri ≡ false
    → parse_uri u.uri ≡ some u
unfolding parse_uri
parse_uri-uri [] u h n = cc
parse_uri-uri (c ∷ uri) u h n = elim (Option-cases (after_prefix (codes "s3://") (c ∷ uri))) [
  | inl e ↦ elim (Option-cases (after_prefix (codes "file://") (c ∷ uri))) [
    | inl k ↦ local-parses c uri u e k (rw (e, k) at h)
    | inr (path, k) ↦ parse_file-parses path u (rw (e, k) at h) (rw k at n)
  ]
  | inr (rest, e) ↦
      let parsed = rw e at h in
      ap parse_uri (s3_uri-canonical _ _ u parsed) ∙ (parse_uri-canonical rest _ ∙ parsed)
]
