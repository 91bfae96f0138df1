-- ===== src/Lib.antt =====
-- A model of the scheduler of selfhost-models, the service that runs inference jobs on GPUs: jobs
-- are submitted to a store, a controller loads a model and dispatches jobs to it, and results come
-- back as receipts that are published as artifacts. The parts modelled here are the store, with the
-- schemas of what is submitted to it, and the executor that the controller may run its engine on:
-- the protocol between them, the executor's journal and its operations, and the controller's table
-- of the commands that it sent. Beside them stands the batch store's account of its jobs. All processes share the store's SQLite database, and the executor
-- has one of its own; each method is made of transactions, so a run of the system is a sequence of
-- calls.
--
-- Files and code (paths from the root of the repository, all in selfhost_models/):
--   Schema/Deployment, Schema/Job   scheduler_schema.py: LoadConfig, Deployment, SchedulerConfig,
--                                   AudioInput, SubmitJob, and the validators between fields
--   Schema/Chat                     schema.py: Message.valid_role, Chat.options_require_stream
--   Schema/Capabilities             capabilities.py, and find_video of video.py
--   Schema/Text                     the regular expressions that these use
--   Sql, Action                     what the store asks of SQLite, and methods that may raise
--   Tables                          the tables that Store.__init__ of scheduler_store.py makes
--   Store/Base                      tx, event, state, fenced, deployment
--   Store/Control                   acquire_controller, heartbeat, phase, engine_exited,
--                                   cleanup_done, preparation_failed, lifecycle_failed,
--                                   resume_deployment
--   Store/Budget                    reserve_load, check_budget_window, open_budget_window,
--                                   close_budget_window; check_fleet_budget_idle of fleet_store.py
--   Store/Queue                     refresh_queue, eligible, choose, next_job, job, jobs, cancel
--   Store/Grants                    execution_grant, execution_pending, execution_ack,
--                                   _execution_grant, _execution_receipt; reserve_execution_grant
--                                   and can_collect_attempt of execution_retention.py
--   Store/Dispatch                  dispatch, attempt_state, legacy_admit, legacy_terminal,
--                                   legacy_detach, legacy_restart, lease_count, health
--   Store/Artifacts                 budget, put, upload, artifact; validate_wav of wav.py
--   Store/Submission                submit; check_admission of fleet_store.py
--   Store/Receipts                  terminal, import_executor_receipt, _accept_receipt,
--                                   recover_receipts, publish, result
--   Store/Collection                collect, sweep
--   Store/Steps                     the modelled methods as steps, and histories of calls; below it, what
--                                   it takes for a relation to hold across each method
--   Store/Invariant                 what holds in every history
--   Store/Fencing                   the transactions that test the controller's epoch
--   Protocol                        execution_protocol.py: Grant, AudioExecution, Command,
--                                   Command.valid_command; below it, validate_manifest
--   Journal                         executor.py: the tables and transactions of the class Journal
--   Journal/Engines                 recover, fence, register_asset, asset, register, engine,
--                                   set_engine, exit_proof
--   Journal/Commands                accept, executing (here try_executing), check_fence, cancel,
--                                   canceled, frame, finish
--   Journal/Custody                 status, ack, retention, compact, collect
--   Journal/Steps                   the methods as steps and histories, and what they keep
--   Executor                        executor.py: engine_exited of the class Executor; below it
--                                   operation, and in Execution run and execute (here
--                                   execute_command)
--   Retention                       execution_retention.py: the class ControlRetention (release is
--                                   here release_outputs, __init__ is open_retention)
--   Batch                           batch.py: the jobs of the class BatchStore: _job, _save_job,
--                                   _capacity, submit, demo (with its transactions demo_intent and
--                                   demo_settle), cancel, demo_confirm
--   Batch/Results                   _results, collect, import_results, result_files, result_file
--   Batch/Paths                     safe_path, validate_files
--   Samples                         a small store, journal and table, and the theorems at concrete
--                                   inputs
--
-- How the code is modelled. The state of the store is a `World`: the tables as lists of rows in
-- rowid order, and the files of artifacts/ and receipts/. A method is a function from a World to a
-- result and a World; a SchedulerError, a violated constraint, a failed write and an error of the
-- test hook are values. A transaction that raises gives back the database from before it, but keeps
-- the files that were written. A method of several transactions (terminal, publish, collect,
-- recover_receipts, import_executor_receipt) is also a step transaction by transaction, so that
-- other calls may come between them.
--
-- What comes from outside is an argument (`Env`): the value of the clock, one for each call; the
-- hook `fault`; the writes that the disk refuses; SHA-256; the canonical JSON texts; new uuids. No
-- theorem assumes more of them than it names. A JSON result is its canonical text, a fraction a
-- number of thousandths, a penalty its distance from zero, a deployment's id the digest of its
-- document. Stored documents were validated before they were stored, and are not validated again.
-- Numbers are unbounded, as Python's are; a subtraction of the source stands as an addition on the
-- other side of its comparison. A SELECT without ORDER BY returns the rows in rowid order where the
-- store's code takes the first or all of them; the order of a batch job's files, which SQLite may
-- read by an index, is an argument (`scan`).
--
-- The executor's journal and the controller's table of commands have states and transactions of
-- their own in the same form. The executor's runtime, which drives Docker and the worker, is a
-- record of its answers (`Runtime`); what it is asked stands in the order of the code. A stored
-- document is kept as what it says: a command's column is the whole command or what compact keeps,
-- and the lengths of the texts are those of the canonical text that the environment gives.
--
-- Loops. The loop of refresh_queue runs on fuel, one round more than there are queued jobs: each
-- round but the last takes a job out of the queue. The other loops go over a list that was read.
--
-- Not modelled: the migration and the settings of Store.__init__ and Journal.__init__,
-- bind_execution, the registration of assets and deployments in the store, the fsync protocol of
-- durable_write, the decoding of PNG files, the page counts of the usage reports; of the class
-- Executor its ASGI service, its start and close, the cancellation of a task, its time limits and
-- the repetition of a finish whose write failed; and the other parts of the repository: the fleet
-- of executors, the execution client, the controller's loop over Docker, the HTTP services, the
-- batch store's drafts, preparation and archives and its projects, video, scripts.
pub mod Prelude
pub mod Sql
pub mod Action
pub mod Schema
pub mod Protocol
pub mod Journal
pub mod Executor
pub mod Retention
pub mod Batch
pub mod Tables
pub mod Store
pub mod Samples
