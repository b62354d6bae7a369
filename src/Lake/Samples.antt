-- ===== src/Lake/Samples.antt =====
-- Addresses with slashes too many.
use robot_data_harness.Common.{
  ◌≡◌, refl, false, Option, none, some, List, [], ◌∷◌, length, Text, codes,
}
use robot_data_harness.Lake.Uri.{
  LakeUri, s3, parse_uri, canonical, collapse, has_double, strip_double_slashes, after_prefix,
  split_slash, lstrip, rstrip, replace_double,
}
use robot_data_harness.Lake.Uri.Slashes.{squeeze, collapse-squeeze}
use robot_data_harness.Lake.Uri.RoundTrip.{nested, parse_uri-uri}
use robot_data_harness.Lake.Uri.Join.{
  join_uri, join_uri-parses, combine, join_slash, clean_parts, rstrip_space, lstrip_space,
}

abbrev base : Text
base = codes "s3://lake//raw///aloha/"

abbrev base_uri : LakeUri
base_uri = record {
  scheme = s3;
  bucket = codes "lake";
  key = codes "raw/aloha";
  local_path = [];
  uri = codes "s3://lake/raw/aloha";
}

base-parses : parse_uri base ≡ some base_uri
unfolding parse_uri after_prefix split_slash strip_double_slashes collapse has_double replace_double
    lstrip rstrip canonical
base-parses = refl

abbrev parts : List (Option Text)
parts = some (codes " v1/ ") ∷ none ∷ some (codes "  ") ∷ some (codes "/ads") ∷ []

joined : join_uri base parts ≡ some (codes "s3://lake/raw/aloha/v1/ads")
unfolding join_uri parse_uri after_prefix split_slash strip_double_slashes collapse has_double
    replace_double lstrip rstrip canonical clean_parts join_slash lstrip_space rstrip_space
joined = refl

-- The parts stand alone when the base is the root directory.
root_lost : join_uri (codes "/") (some (codes "raw") ∷ []) ≡ some (codes "raw")
unfolding join_uri parse_uri after_prefix split_slash strip_double_slashes collapse has_double
    replace_double lstrip rstrip canonical clean_parts join_slash lstrip_space rstrip_space
root_lost = refl

base-plain : nested base ≡ false
unfolding after_prefix
base-plain = refl

collapse-squeeze_example :
    (has_double (collapse (length base) base) ≡ false)
    × (collapse (length base) base ≡ squeeze false base)
collapse-squeeze_example = collapse-squeeze base

parse_uri-uri_example : parse_uri base_uri.uri ≡ some base_uri
parse_uri-uri_example = parse_uri-uri base base_uri base-parses base-plain

join_uri-parses_example :
    (joined : Text) × (u : LakeUri) × (join_uri base parts ≡ some joined)
    × (parse_uri joined ≡ some u)
    × (u.uri ≡ joined)
    × (u.scheme ≡ s3)
    × (u.bucket ≡ base_uri.bucket)
    × (u.key ≡ strip_double_slashes (combine base_uri.key (join_slash (clean_parts parts))))
join_uri-parses_example = join_uri-parses base parts base_uri base-parses refl
