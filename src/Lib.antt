-- ===== src/Lib.antt =====
-- Robot data harness: a model of the parts of the program that plan, run and account for the work on
-- robot datasets, with their correctness theorems.
--
-- The program keeps robot recordings in a lake of files, transforms them (ETL), runs models over them and
-- reports on the quality. The parts modelled here are those that decide what is done and count what was
-- done; they meet the outside through the registries, the database, the file store and subprocesses, all
-- of which are arguments of the definitions.
--
-- Common: the shared names, Boolean tests, lists over native numbers, dictionaries and texts.
--
-- Sharding (src/robot_dh/sharding). A plan packs the datasets of the lake into shards; each shard is run
-- by a worker of its own, which writes a summary; the summaries are merged. Model has the data classes of
-- sharding/models.py and the ids of runtime/ids.py, Planner is `_pack_into_shards`, Plan is `plan_etl`,
-- Perf is `_dataset_phase_perf` with perf/profiler.py, perf/io_stats.py and the result of etl/runner.py,
-- Runner is `run_shard` with `_run_one_dataset` and `_resolve_shard`, Merge is `merge_shard_summaries`.
-- The ETL of one dataset under the root of the lake in force, the listing of the lake, the clock and the floating-point size of a shard in
-- gigabytes are arguments. In Runner the order in which the runs of a pool end is an argument too, so that
-- the theorems hold of every interleaving.
--
-- AiTasks (src/robot_dh/ai_tasks/state.py): the statuses of an inference job, the transitions between
-- them and the verdict on a finished job. Transitions has the reachability relation.
--
-- Inference (src/robot_dh/inference). A job reads samples, cuts them into batches, runs the backend of a
-- model over these with retries, and writes predictions, failures, a report and events. Schemas has the
-- classes of models/schemas.py, Batch is `iter_batches` and `run_batches_concurrent`, Failures is
-- failures.py, Execute is `_execute`, `_predict_with_retry` and `_skipped_predictions`, Metrics has the
-- counts of metrics.py, Records the data of job.py, outputs.py and report.py, and Job is `run_inference`,
-- whose writes are a list of effects. The backend is an argument that is told the batch and the number of
-- the call, so it need not answer twice the same. Its documented contract in models/backends/base.py, as
-- many predictions as samples and in their order, is the hypothesis `Answers`. Error rates are an
-- interface `Rates`, of which nothing is assumed.
--
-- Backfill (src/robot_dh/quality_ops/backfill.py, with warehouse_metrics/dates.py): the failed runs that
-- are to be repeated, and their repetition. Keys has the tuples that name a run, their set and `sorted`,
-- Candidates is `_collect_candidates`, Plan is `plan`, `_recommend_command` and `_persist_plan`, Run is
-- `run` and `status`, with its children on the runs that return and on those that an exception cuts off.
-- The tables of the database are lists of rows; the subprocess of a task is an argument that is told the
-- number of the call and may end with an exception that the loop does not catch. A date is its ordinal.
--
-- Sla (src/robot_dh/quality_ops/sla.py): Scope is about `_select_datasets`, the datasets that a policy is
-- checked for, and Conditions and Verdict about `_evaluate`. `fnmatch` is an argument, and so is the order of the rates.
--
-- Gate (src/robot_dh/gate/evaluator.py, gate/policy.py): the rules of a quality gate. The values of the
-- metrics, which come from JSON and YAML, are the interface `Values`.
--
-- Registry (src/robot_dh/registry). Schema has the rows of schema.py, a table being the list of its rows in
-- the order of their ids; Records the records of models.py; Tables the queries that the service makes of
-- a table; Datasets, Runs and Service the operations of service.py, each a function of the database that
-- has no result when it raises. Views is the contract that a client sees: what each dataset, run and scan
-- reads, and each call as a change of these readings; its children prove that the tables keep it. JSON, the
-- texts of dates, addresses and the sizes of files are the interface `Platform`, and the time of a call is
-- an argument.
--
-- Models (src/robot_dh/models): Schemas has the description of a model with its dictionary and its row,
-- Registry the registration and reading in models/registry.py, and ReadBack what is read of what was
-- written. What a call finds of the database, `Engine`, is an argument of it.
--
-- Lake (src/robot_dh/lake/uri.py): Uri has `parse_uri` and `_strip_double_slashes` on lists of characters,
-- with Slashes on the loop, RoundTrip on addresses that are parsed again, and Join with `join_uri`.
--
-- Partition (src/robot_dh/partition): Family has the family of a dataset and the
-- files that are cut, Planner `_pack` and `plan_dataset_partitions`, Laws is about the groups and Contents about the plan. The listing of the
-- files, `str.lower`, the rows in a parquet file's footer and the target in bytes are arguments.
--
-- Progress (src/robot_dh/progress): Stale is `check_stale_heartbeats` of stale.py with the records of the
-- database or of the local files, Heartbeat the reporter of heartbeat.py with what it
-- sends, Checkpoint the checkpoints of checkpoint.py and their store, an interface
-- `LakeStore`, and Resume what a run that goes on finds in them.
--
-- An exception of Python is `none`, or a constructor of its own where the caller tells exceptions apart.
-- Numbers that the program keeps as integers of any size are natural numbers. Loops are structural
-- recursion; `batches_rounds` has a round for each sample, `dates_from` one for each day and `collapse` one
-- for each character of a key, and these are enough by the theorems on them.
--
-- Not modelled: the formats of files and reports, logging, clocks, floating-point statistics, the
-- command line, the HTTP service, and the database itself, whose ids, time stamps of single rows and
-- failures to commit are left out. Of a job whose backend raises, the batch events
-- before the exception are left out.
pub mod Common
pub mod Sharding
pub mod AiTasks
pub mod Inference
pub mod Backfill
pub mod Sla
pub mod Gate
pub mod Registry
pub mod Models
pub mod Lake
pub mod Partition
pub mod Progress
