-- ===== src/Lake/Uri.antt =====
-- lake/uri.py: the addresses of the lake, s3:// or local. A text is the list of its characters. What
-- raises ValueError has no result.
pub mod Slashes
pub mod RoundTrip
pub mod Join
use robot_data_harness.Common.{
  ℕ, zero, suc, Bool, true, false, not, ◌&&◌, ◌||◌, Option, none, some, List, [], ◌∷◌, ◌++◌, eqb,
  length, Text, codes, if◌then◌else◌, text_beq, any,
}

-- The character "/".
abbrev pub slash : ℕ
slash = 47

-- uri[len(prefix):], for a uri that starts with the prefix
unfoldable pub after_prefix : Text → Text → Option Text
after_prefix [] uri = some uri
after_prefix (p ∷ prefix) [] = none
after_prefix (p ∷ prefix) (c ∷ uri) = elim (eqb p c) [
  | true ↦ after_prefix prefix uri
  | false ↦ none
]

-- "//" in key
unfoldable pub has_double : Text → Bool
has_double [] = false
has_double (c ∷ []) = false
has_double (c ∷ d ∷ key) = (eqb c slash && eqb d slash) || has_double (d ∷ key)

-- key.replace("//", "/")
unfoldable pub replace_double : Text → Text
replace_double [] = []
replace_double (c ∷ []) = c ∷ []
replace_double (c ∷ d ∷ key) = elim (eqb c slash && eqb d slash) [
  | true ↦ slash ∷ replace_double key
  | false ↦ c ∷ replace_double (d ∷ key)
]

-- The loop of _strip_double_slashes, for at most the given rounds.
unfoldable pub collapse : ℕ → Text → Text
collapse zero key = key
collapse (suc rounds) key = elim (has_double key) [
  | true ↦ collapse rounds (replace_double key)
  | false ↦ key
]

-- key.lstrip("/")
unfoldable pub lstrip : Text → Text
lstrip [] = []
lstrip (c ∷ key) = if eqb c slash then lstrip key else c ∷ key

-- c + key, when key has its trailing slashes removed
abbrev pub strip_cons : ℕ → Text → Text
strip_cons c [] = if eqb c slash then [] else c ∷ []
strip_cons c (d ∷ key) = c ∷ d ∷ key

-- key.rstrip("/")
unfoldable pub rstrip : Text → Text
rstrip [] = []
rstrip (c ∷ key) = strip_cons c (rstrip key)

-- A key has fewer double slashes than characters, which bounds the rounds.
unfoldable pub strip_double_slashes : Text → Text
strip_double_slashes key = rstrip (lstrip (collapse (length key) key))

-- The text up to the first slash, and what follows it.
unfoldable pub split_slash : Text → Text × Option Text
split_slash [] = ([], none)
split_slash (c ∷ rest) = elim (eqb c slash) [
  | true ↦ ([], some rest)
  | false ↦ (let (bucket, key) = split_slash rest in (c ∷ bucket, key))
]

pub data Scheme : Type 0 where
  s3 : Scheme
  local : Scheme

pub record LakeUri : Type 0 where
  pub scheme : Scheme
  pub bucket : Text
  pub key : Text
  pub local_path : Text
  pub uri : Text

abbrev pub or_empty : Option Text → Text
or_empty none = []
or_empty (some key) = key

-- f"s3://{bucket}/{key}" if key else f"s3://{bucket}/"
unfoldable pub canonical : Text → Text → Text
canonical bucket [] = codes "s3://" ++ (bucket ++ slash ∷ [])
canonical bucket (c ∷ key) = codes "s3://" ++ (bucket ++ slash ∷ c ∷ key)

abbrev pub s3_uri : Text → Text → Option LakeUri
s3_uri [] key = none
s3_uri (c ∷ bucket) key = some (record {
  scheme = s3;
  bucket = c ∷ bucket;
  key = key;
  local_path = [];
  uri = canonical (c ∷ bucket) key;
})

abbrev pub parse_s3 : Text × Option Text → Option LakeUri
parse_s3 (bucket, key) = s3_uri bucket (strip_double_slashes (or_empty key))

abbrev pub local_uri : Text → LakeUri
local_uri path = record { scheme = local; bucket = []; key = path; local_path = path; uri = path }

-- A file:// address must have a path.
abbrev pub parse_file : Text → Option LakeUri
parse_file [] = none
parse_file (c ∷ path) = some (local_uri (c ∷ path))

abbrev pub parse_local : Text → Option Text → Option LakeUri
parse_local uri none = some (local_uri uri)
parse_local uri (some path) = parse_file path

abbrev pub parse_schemes : Text → Option Text → Option LakeUri
parse_schemes uri none = parse_local uri (after_prefix (codes "file://") uri)
parse_schemes uri (some rest) = parse_s3 (split_slash rest)

unfoldable pub parse_uri : Text → Option LakeUri
parse_uri [] = none
parse_uri (c ∷ uri) = parse_schemes (c ∷ uri) (after_prefix (codes "s3://") (c ∷ uri))
