-- ===== src/Inference/Metrics.antt =====
-- The counts and the error rate of src/robot_dh/inference/metrics.py. Times and latencies are
-- floating-point statistics that no decision reads, and are left out.
use robot_data_harness.Common.{ℕ, ◌-◌, List, length, count_if, ltb, if◌then◌else◌}
use robot_data_harness.AiTasks.{Rates}
use robot_data_harness.Inference.Schemas.{InferencePrediction, ok}

pub record InferenceMetrics (Rate : Type 0) : Type 0 where
  pub total_samples : ℕ
  pub succeeded_samples : ℕ
  pub failed_samples : ℕ
  pub error_rate : Rate

unfoldable pub compute_metrics :
    (rates : Rates) → List InferencePrediction → InferenceMetrics rates.Rate
unfolding ok
compute_metrics rates preds =
    let total = length preds in
    let succeeded = count_if ok preds in
    let failed = total - succeeded in
    record {
      total_samples = total;
      succeeded_samples = succeeded;
      failed_samples = failed;
      error_rate = if ltb 0 total then rates.ratio failed total else rates.zero_rate;
    }
