-- ===== src/Partition/Family.antt =====
-- partition/planner.py: the family of a dataset, and the files of it that are cut. `str.lower` is an
-- argument.
use robot_data_harness.Common.{
  ℕ, Bool, true, false, not, ◌&&◌, ◌||◌, Option, none, some, List, [], ◌∷◌, length, any, select,
  eqb, if◌then◌else◌, String, ◌==◌, one_of, Text, codes,
}

-- A path or address, and its size in bytes.
abbrev pub File : Type 0
File = Text × ℕ

-- text.startswith(prefix)
unfoldable pub starts_with : Text → Text → Bool
starts_with [] text = true
starts_with (p ∷ prefix) [] = false
starts_with (p ∷ prefix) (c ∷ text) = eqb p c && starts_with prefix text

-- part in text
unfoldable pub contains : Text → Text → Bool
contains part [] = starts_with part []
contains part (c ∷ text) = starts_with part (c ∷ text) || contains part text

-- text.endswith(suffix)
unfoldable pub ends_with : Text → Text → Bool
ends_with suffix [] = starts_with suffix []
ends_with suffix (c ∷ text) =
    (eqb (length suffix) (length (c ∷ text)) && starts_with suffix (c ∷ text))
    || ends_with suffix text

module _ (lower : Text → Text) where
  abbrev pub is_parquet : File → Bool
  is_parquet file = ends_with (codes ".parquet") (lower file.0)

  abbrev pub is_hdf5 : File → Bool
  is_hdf5 file = ends_with (codes ".hdf5") (lower file.0) || ends_with (codes ".h5") (lower file.0)

  -- The family that the files suggest.
  abbrev pub family_of_files : Bool → Bool → Bool → Bool → String
  family_of_files has_parquet has_hdf5 has_endpose has_video =
      if has_endpose
      then "demo"
      else if has_hdf5 && not has_video
      then "robomimic"
      else if has_parquet && has_video
      then "lerobot"
      else if has_parquet
      then "bridge"
      else "universal"

  -- The family that the address names, else the one of the files.
  unfoldable pub family_of_uri : Text → List File → String
  family_of_uri lname files =
      if contains (codes "robomimic") lname
      then "robomimic"
      else if contains (codes "droid") lname
      then "droid"
      else if contains (codes "lerobot") lname
      then "lerobot"
      else if contains (codes "bridge") lname
      then "bridge"
      else family_of_files (any is_parquet files) (any is_hdf5 files)
          (any (λ file. ends_with (codes "/endpose.pt") (lower file.0)) files)
          (any (λ file. ends_with (codes ".mp4") (lower file.0)) files)

  -- `lower_name` is str.lower on the name of a family; an empty hint counts as none.
  unfoldable pub detect_dataset_family :
      (String → String) → Text → Option String → List File → String
  detect_dataset_family lower_name dataset_uri none files = family_of_uri (lower dataset_uri) files
  detect_dataset_family lower_name dataset_uri (some hint) files =
      if hint == "" then family_of_uri (lower dataset_uri) files else lower_name hint

  unfoldable pub select_input_files : String → List File → List File
  select_input_files family files =
      if one_of family ("droid" ∷ "lerobot" ∷ "bridge" ∷ [])
      then select is_parquet files
      else if family == "robomimic"
      then select is_hdf5 files
      else files

unfoldable pub partition_type_for_family : String → String
partition_type_for_family family =
    if one_of family ("droid" ∷ "lerobot" ∷ [])
    then "parquet_file"
    else if family == "robomimic"
    then "hdf5_file"
    else if family == "bridge"
    then "parquet_file"
    else "single"
