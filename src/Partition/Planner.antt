-- ===== src/Partition/Planner.antt =====
-- partition/planner.py and partition/models.py: the packing of the files into groups, and the plan. The
-- listing of the files, `str.lower` and the number of rows in a parquet file's footer (none when the read
-- fails) are arguments.
use robot_data_harness.Common.{
  ℕ, suc, ◌+◌, ◌/◌, max, Option, none, some, List, [], ◌∷◌, ◌++◌, map, length, sum_of, leb,
  sorted_by, sorted_desc, text_lt, if◌then◌else◌, ◌>>=◌, String, append, ◌==◌, one_of, Text,
}
use robot_data_harness.Partition.Family.{
  File, is_parquet, detect_dataset_family, select_input_files, partition_type_for_family,
}
use robot_data_harness.Sharding.Model.{decimal3}

pub record Partition : Type 0 where
  pub partition_id : String
  pub partition_index : ℕ
  pub dataset_uri : Text
  pub partition_uri : Text
  pub input_files : List Text
  pub input_bytes : ℕ
  pub estimated_rows : ℕ
  pub family : String
  pub file_count : Option ℕ

pub record PartitionPlan : Type 0 where
  pub partition_plan_id : String
  pub dataset_id : String
  pub version : String
  pub dataset_uri : Text
  pub dataset_family : String
  pub partition_type : String
  pub target_partition_size_bytes : ℕ
  pub total_input_bytes : ℕ
  pub partitions : List Partition
  pub created_at : String

-- The groups with their sizes: each file goes to the first group that has room, or opens a new one.
unfoldable pub place_file : ℕ → File → List (List File × ℕ) → List (List File × ℕ)
place_file target f [] = (f ∷ [], f.1) ∷ []
place_file target f ((group, size) ∷ groups) =
    let rest = place_file target f groups in
    if leb (size + f.1) target then (group ++ f ∷ [], size + f.1) ∷ groups else (group, size) ∷ rest

unfoldable pub place_files : ℕ → List File → List (List File × ℕ) → List (List File × ℕ)
place_files target [] groups = groups
place_files target (f ∷ files) groups = place_files target files (place_file target f groups)

-- g.sort(key=lambda p: p[0])
unfoldable pub sort_group : List File × ℕ → List File
sort_group (group, size) = sorted_by (λ f g. text_lt f.0 g.0) group

unfoldable pub pack : List File → ℕ → List (List File)
pack files target = map sort_group (place_files target (sorted_desc (λ f. f.1) files) [])

module _ (num_rows : Text → Option ℕ) (lower : Text → Text) where
  -- None when a file is no parquet file or its footer is not read.
  unfoldable pub precise_parquet_rows : ℕ → List File → Option ℕ
  precise_parquet_rows total [] = some total
  precise_parquet_rows total (f ∷ group) =
      if is_parquet lower f
      then (do rows ← num_rows f.0; precise_parquet_rows (total + rows) group)
      else none

  abbrev pub or_bytes : ℕ → Option ℕ → ℕ
  or_bytes bytes none = bytes / 256
  or_bytes bytes (some rows) = rows

  unfoldable pub estimate_rows : List File → String → ℕ
  estimate_rows group family =
      let bytes_total = sum_of (λ f. f.1) group in
      if one_of family ("droid" ∷ "lerobot" ∷ "bridge" ∷ [])
      then or_bytes bytes_total (precise_parquet_rows 0 group)
      else if family == "robomimic"
      then bytes_total / 1024
      else 0

  -- The file of a group of one, else the dataset.
  abbrev pub group_uri : Text → List File → Text
  group_uri dataset_uri (f ∷ []) = f.0
  group_uri dataset_uri _ = dataset_uri

  unfoldable pub partition_of : String → Text → String → ℕ → List File → Partition
  partition_of plan_id dataset_uri family idx group = record {
    partition_id = append plan_id (append "-p" (decimal3 idx));
    partition_index = idx;
    dataset_uri = dataset_uri;
    partition_uri = group_uri dataset_uri group;
    input_files = map (λ f. f.0) group;
    input_bytes = sum_of (λ f. f.1) group;
    estimated_rows = estimate_rows group family;
    family = family;
    file_count = some (length group);
  }

  unfoldable pub partitions_of : String → Text → String → ℕ → List (List File) → List Partition
  partitions_of plan_id dataset_uri family idx [] = []
  partitions_of plan_id dataset_uri family idx (group ∷ groups) =
      partition_of plan_id dataset_uri family idx group
      ∷ partitions_of plan_id dataset_uri family (suc idx) groups

  -- The only partition of a dataset none of whose files is selected.
  unfoldable pub whole_partition : String → Text → String → List File → Partition
  whole_partition plan_id dataset_uri family files = record {
    partition_id = append plan_id "-p000";
    partition_index = 0;
    dataset_uri = dataset_uri;
    partition_uri = dataset_uri;
    input_files = map (λ f. f.0) files;
    input_bytes = sum_of (λ f. f.1) files;
    estimated_rows = 0;
    family = family;
    file_count = none;
  }

  abbrev pub choose_partitions : String → Text → String → ℕ → List File → List File → List Partition
  choose_partitions plan_id dataset_uri family target files [] =
      whole_partition plan_id dataset_uri family files ∷ []
  choose_partitions plan_id dataset_uri family target files (f ∷ selected) =
      partitions_of plan_id dataset_uri family 0 (pack (f ∷ selected) target)

  abbrev pub choose_type : String → List File → String
  choose_type family [] = "single"
  choose_type family (f ∷ selected) = partition_type_for_family family

  -- `target` is the truncated size in bytes of the caller's target in gigabytes, and `files` the listing.
  unfoldable pub plan_dataset_partitions :
      (String → String)
      → Text
      → String
      → String
      → ℕ
      → Option String
      → String
      → List File
      → String
      → PartitionPlan
  plan_dataset_partitions lower_name dataset_uri dataset_id version target family_hint plan_id files
        created_at =
      let target_bytes = max 1 target in
      let family = detect_dataset_family lower lower_name dataset_uri family_hint files in
      let selected = select_input_files lower family files in
      record {
        partition_plan_id = plan_id;
        dataset_id = dataset_id;
        version = version;
        dataset_uri = dataset_uri;
        dataset_family = family;
        partition_type = choose_type family selected;
        target_partition_size_bytes = target_bytes;
        total_input_bytes = sum_of (λ f. f.1) files;
        partitions = choose_partitions plan_id dataset_uri family target_bytes files selected;
        created_at = created_at;
      }
