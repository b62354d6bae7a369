-- ===== src/Partition/Samples.antt =====
-- A dataset of three parquet files and a note.
use robot_data_harness.Common.{none, some, List, [], ◌∷◌, codes}
use robot_data_harness.Partition.Family.{File, select_input_files, detect_dataset_family}
use robot_data_harness.Partition.Planner.{plan_dataset_partitions}
use robot_data_harness.Partition.Contents.{Covers, covered_files, plan_dataset_partitions-Covers}

abbrev files : List File
files =
    (codes "b.parquet", 6)
    ∷ (codes "a.parquet", 4)
    ∷ (codes "c.parquet", 30)
    ∷ (codes "note.txt", 1)
    ∷ []

plan_dataset_partitions-Covers_example :
    Covers 10
      (plan_dataset_partitions
        (λ uri. some 5)
        (λ text. text)
        (λ name. name)
        (codes "s3://lake/bridge")
        "bridge"
        "v1"
        10
        none
        "plan"
        files
        "2024-01-01").partitions
      (covered_files files (
        select_input_files
          (λ text. text)
          (detect_dataset_family
            (λ text. text)
            (λ name. name)
            (codes "s3://lake/bridge")
            none
            files)
          files))
plan_dataset_partitions-Covers_example =
    plan_dataset_partitions-Covers (λ uri. some 5) (λ text. text) (λ name. name)
      (codes "s3://lake/bridge") "bridge" "v1" 10 none "plan" files "2024-01-01"
