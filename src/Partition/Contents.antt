-- ===== src/Partition/Contents.antt =====
-- What a plan covers: every chosen file in one partition, with the sizes added up.
use mathlib.Core.List.Perm
use mathlib.Core.List.{Perm, append-nil}
use robot_data_harness.Common.{
  ℕ, suc, max, ◌≡◌, refl, sym, ap, ◌∙◌, ◌≤◌, ◌⊎◌, inl, inr, Option, none, All, length, length-map,
  List, [], ◌∷◌, ◌++◌, map, sum_of, sum_of-append, sum_of-perm, String, Text, concat, arith,
}
use robot_data_harness.Partition.Family.{File, select_input_files, detect_dataset_family}
use robot_data_harness.Partition.Planner.{
  Partition, pack, partition_of, partitions_of, whole_partition, choose_partitions,
  plan_dataset_partitions,
}
use robot_data_harness.Partition.Laws.{pack-Perm, IsBounded, pack-IsBounded}

-- The files that a plan covers: the selected ones, or all when none is selected.
abbrev pub covered_files : List File → List File → List File
covered_files files [] = files
covered_files files (f ∷ selected) = f ∷ selected

-- The partitions stand under the indices k, k + 1, ….
abbrev pub IsNumbered : ℕ → List Partition → Type 0
IsNumbered k [] = Unit
IsNumbered k (p ∷ partitions) = (p.partition_index ≡ k) × IsNumbered (suc k) partitions

-- The partition is that of the whole dataset, or its bytes fit the target, or it has one file.
abbrev pub FitsTarget : ℕ → Partition → Type 0
FitsTarget target p =
    (p.file_count ≡ none) ⊎ ((p.input_bytes ≤ target) ⊎ (length p.input_files ≡ 1))

abbrev pub Covers : ℕ → List Partition → List File → Type 0
Covers target partitions files =
    Perm (concat (map (λ p. p.input_files) partitions)) (map (λ f. f.0) files)
    × (sum_of (λ p. p.input_bytes) partitions ≡ sum_of (λ f. f.1) files)
    × IsNumbered 0 partitions
    × All (FitsTarget target) partitions

map-append {ℓ κ} :
    {A : Type ℓ} {B : Type κ} (f : A → B) (xs ys : List A) → map f (xs ++ ys) ≡ map f xs ++ map f ys
map-append f [] ys = refl
map-append f (x ∷ xs) ys = ap (◌∷◌ (f x)) (map-append f xs ys)

whole_files : (files : List File) → Perm (map (λ f. f.0) files ++ []) (map (λ f. f.0) files)
whole_files files = rw (append-nil (map (λ f. f.0) files)) (Perm.refl (map (λ f. f.0) files))

module _ (num_rows : Text → Option ℕ) (lower : Text → Text) (plan_id : String) (dataset_uri : Text)
    (family : String) where
  partitions_of-files :
      (k : ℕ) (groups : List (List File))
      → concat (
          map
            (λ p. p.input_files)
            (partitions_of num_rows lower plan_id dataset_uri family k groups))
        ≡ map (λ f. f.0) (concat groups)
  unfolding partitions_of partition_of
  partitions_of-files k [] = refl
  partitions_of-files k (g ∷ groups) =
      rw (partitions_of-files (suc k) groups) (sym (map-append (λ f. f.0) g (concat groups)))

  partitions_of-bytes :
      (k : ℕ) (groups : List (List File))
      → sum_of
          (λ p. p.input_bytes)
          (partitions_of num_rows lower plan_id dataset_uri family k groups)
        ≡ sum_of (λ f. f.1) (concat groups)
  unfolding partitions_of partition_of
  partitions_of-bytes k [] = refl
  partitions_of-bytes k (g ∷ groups) =
      omega (arith, partitions_of-bytes (suc k) groups, sum_of-append (λ f. f.1) g (concat groups))

  partitions_of-IsNumbered :
      (k : ℕ) (groups : List (List File))
      → IsNumbered k (partitions_of num_rows lower plan_id dataset_uri family k groups)
  unfolding partitions_of partition_of
  partitions_of-IsNumbered k [] = tt
  partitions_of-IsNumbered k (g ∷ groups) = (refl, partitions_of-IsNumbered (suc k) groups)

  partitions_of-FitsTarget :
      (target k : ℕ) (groups : List (List File))
      → All (IsBounded target) groups
      → All (FitsTarget target) (partitions_of num_rows lower plan_id dataset_uri family k groups)
  unfolding partitions_of partition_of
  partitions_of-FitsTarget target k [] h = tt
  partitions_of-FitsTarget target k (g ∷ groups) (inl fits, h) =
      (inr (inl fits), partitions_of-FitsTarget target (suc k) groups h)
  partitions_of-FitsTarget target k (g ∷ groups) (inr one, h) =
      (inr (inr (length-map (λ f. f.0) g ∙ one)), partitions_of-FitsTarget target (suc k) groups h)

  choose_partitions-Covers :
      (target : ℕ) (files selected : List File)
      → Covers target
          (choose_partitions num_rows lower plan_id dataset_uri family target files selected)
          (covered_files files selected)
  unfolding whole_partition
  choose_partitions-Covers target files [] =
      (whole_files files, omega arith, (refl, tt), (inl refl, tt))
  choose_partitions-Covers target files (f ∷ selected) =
      let groups = pack (f ∷ selected) target in
      (
        rw (partitions_of-files 0 groups) (Perm.map (λ f. f.0) (pack-Perm (f ∷ selected) target)),
        partitions_of-bytes 0 groups ∙ sum_of-perm (λ f. f.1) (pack-Perm (f ∷ selected) target),
        partitions_of-IsNumbered 0 groups,
        partitions_of-FitsTarget target 0 groups (pack-IsBounded (f ∷ selected) target),
      )

-- The partitions of a plan hold each chosen file once, that is the selected ones or all of them when none
-- is selected; their bytes add up to those of these files, and their indices count from 0. Each is the
-- one of the whole dataset, or has at most the target's bytes, or holds one file.
pub plan_dataset_partitions-Covers :
    (num_rows : Text → Option ℕ) (lower : Text → Text) (lower_name : String → String)
    (dataset_uri : Text) (dataset_id version : String) (target : ℕ) (family_hint : Option String)
    (plan_id : String) (files : List File) (created_at : String)
    → Covers
        (max 1 target)
        (plan_dataset_partitions num_rows lower lower_name dataset_uri dataset_id version target
          family_hint plan_id files created_at).partitions
        (covered_files files (
          select_input_files lower
            (detect_dataset_family lower lower_name dataset_uri family_hint files)
            files))
unfolding plan_dataset_partitions
plan_dataset_partitions-Covers num_rows lower lower_name dataset_uri dataset_id version target
      family_hint plan_id files created_at =
    choose_partitions-Covers num_rows lower plan_id dataset_uri _ (max 1 target) files _
