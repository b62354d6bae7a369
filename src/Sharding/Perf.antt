-- ===== src/Sharding/Perf.antt =====
-- src/robot_dh/sharding/shard_runner.py `_dataset_phase_perf`, with the records of perf/profiler.py and
-- the sums of perf/io_stats.py. A duration is a number of clock ticks.
use robot_data_harness.Common.{ℕ, ◌+◌, String, append, Option, none, some, List, [], ◌∷◌, ◌++◌}
use robot_data_harness.Sharding.Model.{PlanDataset, PlanShard}

-- An entry of a manifest's `files`, of which only two keys are read.
pub record FileInfo : Type 0 where
  pub size_bytes : Option ℕ
  pub row_count : Option ℕ

pub record NormalizeResult : Type 0 where
  pub job_id : String
  pub output_uri : String
  pub files : List FileInfo
  pub num_samples : ℕ
  pub duration_job_sec : ℕ

pub record FeatureResult : Type 0 where
  pub job_id : String
  pub output_uri : String
  pub files : List FileInfo
  pub num_press_events : ℕ
  pub duration_job_sec : ℕ
  pub job_status : String

pub record AdsResult : Type 0 where
  pub job_id : String
  pub output_uri : String
  pub files : List FileInfo
  pub duration_job_sec : ℕ

-- The fields of an `EtlRunResult` that the shard runner reads.
pub record EtlRunResult : Type 0 where
  pub status : String
  pub error : Option String
  pub normalize : Option NormalizeResult
  pub features : Option FeatureResult
  pub ads : Option AdsResult

pub record PerfRecord : Type 0 where
  pub job_id : String
  pub run_id : String
  pub dataset_id : String
  pub version : String
  pub phase : String
  pub input_uri : Option String
  pub output_uri : Option String
  pub input_bytes : ℕ
  pub output_bytes : ℕ
  pub input_rows : ℕ
  pub output_rows : ℕ
  pub duration_sec : ℕ
  pub status : String
  pub error_message : Option String

abbrev or_zero : Option ℕ → ℕ
or_zero none = 0
or_zero (some n) = n

pub sum_file_sizes : List FileInfo → ℕ
sum_file_sizes [] = 0
sum_file_sizes (f ∷ files) = or_zero f.size_bytes + sum_file_sizes files

pub sum_file_rows : List FileInfo → ℕ
sum_file_rows [] = 0
sum_file_rows (f ∷ files) = or_zero f.row_count + sum_file_rows files

abbrev files_of : Option NormalizeResult → List FileInfo
files_of none = []
files_of (some n) = n.files

abbrev features_files : Option FeatureResult → List FileInfo
features_files none = []
features_files (some f) = f.files

module _ (plan_id : String) (shard : PlanShard) (dataset : PlanDataset) where
  abbrev run_id : String
  run_id = append plan_id (append "::" shard.shard_id)

  -- The whole run failed: one record.
  pub failure_perf : Option String → ℕ → PerfRecord
  failure_perf error duration = record {
    job_id = append shard.shard_id (append "::" dataset.dataset_id);
    run_id = run_id;
    dataset_id = dataset.dataset_id;
    version = dataset.version;
    phase = "etl_run";
    input_uri = some dataset.dataset_uri;
    output_uri = none;
    input_bytes = dataset.input_bytes;
    output_bytes = 0;
    input_rows = 0;
    output_rows = 0;
    duration_sec = duration;
    status = "FAIL";
    error_message = error;
  }

  pub normalize_perf : Option NormalizeResult → List PerfRecord
  unfolding sum_file_sizes sum_file_rows
  normalize_perf none = []
  normalize_perf (some norm) =
      record {
        job_id = norm.job_id;
        run_id = run_id;
        dataset_id = dataset.dataset_id;
        version = dataset.version;
        phase = "normalize";
        input_uri = some dataset.dataset_uri;
        output_uri = some norm.output_uri;
        input_bytes = dataset.input_bytes;
        output_bytes = sum_file_sizes norm.files;
        input_rows = norm.num_samples;
        output_rows = sum_file_rows norm.files;
        duration_sec = norm.duration_job_sec;
        status = "OK";
        error_message = none;
      }
      ∷ []

  abbrev samples_of : Option NormalizeResult → ℕ
  samples_of none = 0
  samples_of (some n) = n.num_samples

  abbrev uri_of : Option NormalizeResult → Option String
  uri_of none = none
  uri_of (some n) = some n.output_uri

  pub features_perf : Option NormalizeResult → Option FeatureResult → List PerfRecord
  unfolding sum_file_sizes sum_file_rows
  features_perf norm none = []
  features_perf norm (some feat) =
      record {
        job_id = feat.job_id;
        run_id = run_id;
        dataset_id = dataset.dataset_id;
        version = dataset.version;
        phase = "build_features";
        input_uri = uri_of norm;
        output_uri = some feat.output_uri;
        input_bytes = sum_file_sizes (files_of norm);
        output_bytes = sum_file_sizes feat.files;
        input_rows = samples_of norm;
        output_rows = sum_file_rows feat.files;
        duration_sec = feat.duration_job_sec;
        status = feat.job_status;
        error_message = none;
      }
      ∷ []

  abbrev features_uri : Option FeatureResult → Option String
  features_uri none = none
  features_uri (some f) = some f.output_uri

  abbrev press_events : Option FeatureResult → ℕ
  press_events none = 0
  press_events (some f) = f.num_press_events

  pub ads_perf : Option FeatureResult → Option AdsResult → List PerfRecord
  unfolding sum_file_sizes sum_file_rows
  ads_perf feat none = []
  ads_perf feat (some ads) =
      record {
        job_id = ads.job_id;
        run_id = run_id;
        dataset_id = dataset.dataset_id;
        version = dataset.version;
        phase = "build_ads";
        input_uri = features_uri feat;
        output_uri = some ads.output_uri;
        input_bytes = sum_file_sizes (features_files feat);
        output_bytes = sum_file_sizes ads.files;
        input_rows = press_events feat;
        output_rows = sum_file_rows ads.files;
        duration_sec = ads.duration_job_sec;
        status = "OK";
        error_message = none;
      }
      ∷ []

  unfoldable pub dataset_phase_perf : Option EtlRunResult → Option String → ℕ → List PerfRecord
  unfolding failure_perf normalize_perf features_perf ads_perf
  dataset_phase_perf none error duration = failure_perf error duration ∷ []
  dataset_phase_perf (some r) error duration =
      normalize_perf r.normalize
      ++ (features_perf r.normalize r.features ++ ads_perf r.features r.ads)
