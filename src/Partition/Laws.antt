-- ===== src/Partition/Laws.antt =====
-- What the partitions of a plan hold, and how large they are.
use mathlib.Core.List.Perm
use mathlib.Core.List.{Perm, append_assoc, append-nil, perm_middle}
use robot_data_harness.Common.{
  ℕ, ◌+◌, ◌≤◌, ◌≡◌, refl, ◌∙◌, ◌⊎◌, inl, inr, List, [], ◌∷◌, ◌++◌, map, length, sum_of,
  sum_of-append, sum_of-perm, length-perm, leb, leb→le, concat, All, Bool-cases, sorted_by-perm,
  sorted_desc, sorted_desc-perm, arith,
}
use robot_data_harness.Partition.Family.{File}
use robot_data_harness.Partition.Planner.{place_file, place_files, sort_group, pack}

abbrev bytes : List File → ℕ
bytes files = sum_of (λ f. f.1) files

-- The files of all groups, in order.
abbrev grouped : List (List File × ℕ) → List File
grouped groups = concat (map (λ g. g.0) groups)

place_file-perm :
    (target : ℕ) (f : File) (groups : List (List File × ℕ))
    → Perm (grouped (place_file target f groups)) (f ∷ grouped groups)
unfolding place_file
place_file-perm target f [] = Perm.refl (f ∷ [])
place_file-perm target f ((group, size) ∷ groups) = elim (Bool-cases (leb (size + f.1) target)) [
  | inl e ↦
      rw (e, append_assoc group (f ∷ []) (grouped groups)) (perm_middle group (grouped groups))
  | inr e ↦ rw e (
      Perm.trans (Perm.append_left group (place_file-perm target f groups))
        (perm_middle group (grouped groups)))
]

place_files-perm :
    (target : ℕ) (files : List File) (groups : List (List File × ℕ))
    → Perm (grouped (place_files target files groups)) (files ++ grouped groups)
unfolding place_files
place_files-perm target [] groups = Perm.refl (grouped groups)
place_files-perm target (f ∷ files) groups =
    Perm.trans (place_files-perm target files (place_file target f groups)) (
      Perm.trans (Perm.append_left files (place_file-perm target f groups))
        (perm_middle files (grouped groups)))

sort_groups-perm :
    (groups : List (List File × ℕ)) → Perm (concat (map sort_group groups)) (grouped groups)
unfolding sort_group
sort_groups-perm [] = Perm.refl []
sort_groups-perm ((group, size) ∷ groups) =
    Perm.trans (Perm.append_right _ (sorted_by-perm _ group))
      (Perm.append_left group (sort_groups-perm groups))

-- Each file stands in one group.
pub pack-Perm : (files : List File) (target : ℕ) → Perm (concat (pack files target)) files
unfolding pack
pack-Perm files target =
    let sorted = sorted_desc (λ f. f.1) files in
    Perm.trans (sort_groups-perm (place_files target sorted [])) (
      Perm.trans (rw (append-nil sorted) at (place_files-perm target sorted []))
        (sorted_desc-perm (λ f. f.1) files))

-- A group with its own size that is no larger than the target, or that holds one file.
abbrev IsPacked : ℕ → List File × ℕ → Type 0
IsPacked target (group, size) = (size ≡ bytes group) × ((size ≤ target) ⊎ (length group ≡ 1))

place_file-IsPacked :
    (target : ℕ) (f : File) (groups : List (List File × ℕ))
    → All (IsPacked target) groups
    → All (IsPacked target) (place_file target f groups)
unfolding place_file
place_file-IsPacked target f [] h = ((omega arith, inr refl), tt)
place_file-IsPacked target f ((group, size) ∷ groups) h =
    elim (Bool-cases (leb (size + f.1) target)) [
      | inl e ↦
          rw e (
            (omega (arith, sum_of-append (λ g. g.1) group (f ∷ []), h.0.0), inl (leb→le _ _ e)),
            h.1,
          )
      | inr e ↦ rw e (h.0, place_file-IsPacked target f groups h.1)
    ]

place_files-IsPacked :
    (target : ℕ) (files : List File) (groups : List (List File × ℕ))
    → All (IsPacked target) groups
    → All (IsPacked target) (place_files target files groups)
unfolding place_files
place_files-IsPacked target [] groups h = h
place_files-IsPacked target (f ∷ files) groups h =
    place_files-IsPacked target files (place_file target f groups)
      (place_file-IsPacked target f groups h)

-- The files of a group fit the target together, or the group holds one file.
abbrev pub IsBounded : ℕ → List File → Type 0
IsBounded target group = (sum_of (λ f. f.1) group ≤ target) ⊎ (length group ≡ 1)

sort_group-IsBounded :
    (target : ℕ) (group : List File × ℕ)
    → IsPacked target group
    → IsBounded target (sort_group group)
unfolding sort_group
sort_group-IsBounded target (group, size) (e, inl h) =
    inl (omega (arith, sum_of-perm (λ f. f.1) (sorted_by-perm _ group), e, h))
sort_group-IsBounded target (group, size) (e, inr h) =
    inr (length-perm (sorted_by-perm _ group) ∙ h)

sort_groups-IsBounded :
    (target : ℕ) (groups : List (List File × ℕ))
    → All (IsPacked target) groups
    → All (IsBounded target) (map sort_group groups)
sort_groups-IsBounded target [] h = tt
sort_groups-IsBounded target (g ∷ groups) h =
    (sort_group-IsBounded target g h.0, sort_groups-IsBounded target groups h.1)

-- The files of a group are together no larger than the target, or there is one of them.
pub pack-IsBounded : (files : List File) (target : ℕ) → All (IsBounded target) (pack files target)
unfolding pack
pack-IsBounded files target =
    sort_groups-IsBounded target _
      (place_files-IsPacked target (sorted_desc (λ f. f.1) files) [] tt)
