-- ===== src/Lake/Uri/Join.antt =====
-- lake/uri.py: join_uri, and the bucket that it keeps.
use robot_data_harness.Common.{
  ℕ, ◌≡◌, refl, sym, ap, inl, inr, Bool, ◌&&◌, ◌||◌, Option, none, some, List, [], ◌∷◌, ◌++◌, eqb,
  leb, Text, codes, Option-cases, List-cases, if◌then◌else◌, ◌>>=◌, arith,
}
use robot_data_harness.Lake.Uri.{
  slash, after_prefix, split_slash, lstrip, rstrip, strip_double_slashes, canonical, LakeUri,
  Scheme, s3, local, parse_uri, parse_file,
}
use robot_data_harness.Lake.Uri.RoundTrip.{parse_uri-canonical}

abbrev within : ℕ → ℕ → ℕ → Bool
within first last c = leb first c && leb c last

-- c.isspace(), as str.strip() takes it
abbrev is_space : ℕ → Bool
is_space c =
    within 9 13 c
    || within 28 32 c
    || eqb c 133
    || eqb c 160
    || eqb c 5760
    || within 8192 8202 c
    || within 8232 8233 c
    || eqb c 8239
    || eqb c 8287
    || eqb c 12288

unfoldable pub lstrip_space : Text → Text
lstrip_space [] = []
lstrip_space (c ∷ text) = if is_space c then lstrip_space text else c ∷ text

abbrev pub strip_space_cons : ℕ → Text → Text
strip_space_cons c [] = if is_space c then [] else c ∷ []
strip_space_cons c (d ∷ text) = c ∷ d ∷ text

unfoldable pub rstrip_space : Text → Text
rstrip_space [] = []
rstrip_space (c ∷ text) = strip_space_cons c (rstrip_space text)

abbrev pub clean_part : Text → List Text → List Text
clean_part [] rest = rest
clean_part (c ∷ text) rest = rstrip (lstrip (c ∷ text)) ∷ rest

-- The parts that are there and not blank, without their outer slashes.
unfoldable pub clean_parts : List (Option Text) → List Text
clean_parts [] = []
clean_parts (none ∷ parts) = clean_parts parts
clean_parts (some part ∷ parts) = clean_part (rstrip_space (lstrip_space part)) (clean_parts parts)

-- "/".join(parts)
unfoldable pub join_slash : List Text → Text
join_slash [] = []
join_slash (part ∷ []) = part
join_slash (part ∷ next ∷ parts) = part ++ slash ∷ join_slash (next ∷ parts)

-- The first and the suffix with a slash between them, when neither is empty.
abbrev pub combine : Text → Text → Text
combine [] suffix = suffix
combine (c ∷ key) [] = c ∷ key
combine (c ∷ key) (d ∷ suffix) = c ∷ key ++ slash ∷ d ∷ suffix

abbrev pub join_parsed : LakeUri → Scheme → Text → Text
join_parsed parsed s3 suffix =
    canonical parsed.bucket (strip_double_slashes (combine parsed.key suffix))
join_parsed parsed local suffix = combine (rstrip parsed.local_path) suffix

unfoldable pub join_uri : Text → List (Option Text) → Option Text
join_uri base parts = do
  parsed ← parse_uri base
  some (join_parsed parsed parsed.scheme (join_slash (clean_parts parts)))

parse_file-local : (path : Text) (u : LakeUri) → parse_file path ≡ some u → u.scheme ≡ local
parse_file-local [] u h = cc
parse_file-local (c ∷ path) u h = ground (arith, h)

-- The bucket of an address on s3 is the part of a text in front of its first slash, and is not empty.
parse_uri-bucket :
    (uri : Text) (u : LakeUri)
    → parse_uri uri ≡ some u
    → u.scheme ≡ s3
    → (rest : Text) × (c : ℕ) × (bucket : Text) × ((split_slash rest).0 ≡ c ∷ bucket)
      × (u.bucket ≡ c ∷ bucket)
unfolding parse_uri
parse_uri-bucket [] u h s = cc
parse_uri-bucket (c ∷ uri) u h s = elim (Option-cases (after_prefix (codes "s3://") (c ∷ uri))) [
  | inl e ↦ elim (Option-cases (after_prefix (codes "file://") (c ∷ uri))) [
    | inl k ↦ cc (parse_file-local (c ∷ uri) u (rw (e, k) at h), s)
    | inr (path, k) ↦ cc (parse_file-local path u (rw (e, k) at h), s)
  ]
  | inr (rest, e) ↦ elim (List-cases (split_slash rest).0) [
    | inl n ↦ cc (rw (e, n) at h)
    | inr (b, bucket, n) ↦ (rest, b, bucket, n, ground (arith, rw (e, n) at h))
  ]
]

-- Parts joined to an address on s3 give an address on s3 in the same bucket, that parses to itself.
pub join_uri-parses :
    (base : Text) (parts : List (Option Text)) (parsed : LakeUri)
    → parse_uri base ≡ some parsed
    → parsed.scheme ≡ s3
    → (joined : Text) × (u : LakeUri) × (join_uri base parts ≡ some joined)
      × (parse_uri joined ≡ some u)
      × (u.uri ≡ joined)
      × (u.scheme ≡ s3)
      × (u.bucket ≡ parsed.bucket)
      × (u.key ≡ strip_double_slashes (combine parsed.key (join_slash (clean_parts parts))))
unfolding join_uri
join_uri-parses base parts parsed h s =
    let (rest, c, bucket, split, same) = parse_uri-bucket base parsed h s in
    let key = strip_double_slashes (combine parsed.key (join_slash (clean_parts parts))) in
    let joined = canonical parsed.bucket key in
    let u : LakeUri = record {
      scheme = s3;
      bucket = c ∷ bucket;
      key = key;
      local_path = [];
      uri = canonical (c ∷ bucket) key;
    } in
    (
      joined,
      u,
      rw (h, s) refl,
      rw same (
          rw split at
            (parse_uri-canonical rest (combine parsed.key (join_slash (clean_parts parts))))),
      ap (λ b. canonical b key) (sym same),
      refl,
      sym same,
      refl,
    )
