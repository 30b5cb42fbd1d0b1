-- ===== src/Lib.antt =====
-- s3rm deletes objects of an S3 bucket in bulk: a lister sends the objects of a bucket into a channel,
-- filter stages pass on those that the settings select, and delete workers delete them one by one or
-- in batches. This library models the parts that decide what is deleted, what is reported and how the
-- program ends. Paths below are those of the repository.
--
-- The parts and their files:
-- - Base: shared names; Boolean tests, lists over the native numbers, `Result`, code that changes a
--   state and may fail (`M`, with do blocks), `i64`.
-- - Types, for src/types: objects, statistics, outcomes, targets, events, errors. `Types.Error` keeps
--   an `anyhow::Error` as the error that was raised under its contexts, so that a downcast is a
--   function. `Types.Sdk` holds what comes from other crates: times, regular expressions, URL
--   encoding.
-- - Config, for src/config/mod.rs: the settings and the defaults. Config.Client: the settings of the
--   client and the credentials.
-- - Args, for src/config/args: the arguments (`CliArgs`), the parsers of values (Args.Parsers, where
--   `IsAccepted` says what clap has checked before the arguments are converted), the settings of the
--   client (Args.Client) and the conversion to a configuration (Args.Build). What other crates do for it is the record `Crates`.
-- - Stage, for src/stage.rs: `Stage::send`. The other tasks of the pipeline, as one stage sees them,
--   are `Surroundings`: the answers to its attempts to send and to its readings of the cancellation
--   token, both counted.
-- - Filters, for src/filters: the predicates, the loop of a stage, the loop of the callback's stage,
--   and the chain that `DeletionPipeline::filter_objects` of src/pipeline.rs builds.
-- - Storage, for src/storage/mod.rs: `StorageTrait` as a record of operations on a state of the
--   target's own. Storage.S3, for src/storage/s3/mod.rs, fills the record with the calls of a client,
--   which is a parameter. Storage.Listing: the sequential listing over the answers of S3, which are a
--   parameter; Storage.Listing.Contract is what S3 promises of those answers, in the terms of its API.
--   Storage.Listing.Parallel: the tasks of the parallel listing; a `Scheduler` gives the
--   answers and the surroundings of each task, the interleaving of what the tasks send, and the order in
--   which they end. Storage.Listing.Permits: the permits of those tasks, as a step relation.
--   Storage.Listing.Dispatch: the choice between the two listings, and `ObjectLister` of src/lister.rs.
--   Storage.ClientBuilder, for src/storage/s3/client_builder.rs: what the client is built from.
--   Storage.Create: `create_storage` with the settings of the rate limiter, and the tokens that the
--   requests of a worker take.
-- - Deleter, for src/deleter: the state of a worker with the shared state it changes (World), the
--   backends of batch.rs and single.rs with the fallback of a batch (Backend), the content-type,
--   metadata and tag filters (Attributes), `ObjectDeleter` (Worker), its flush (Worker.Flush), and
--   several workers over the shared state as a step relation (Workers), one step for each object.
--   Deleter.Refinement: the abstract view of a target, the list of its deletes, for one worker and for
--   several, and its composition with the listing and the filters.
-- - Safety, for src/safety/mod.rs: `SafetyChecker`; the terminal is a parameter.
-- - Events, for src/callback/event_manager.rs: `EventManager`; the clock is a parameter.
-- - Pipeline, for src/pipeline.rs: the state, `check_prerequisites`, `run`, the recording of errors and
--   the events that frame a run. What the tasks of the stages do in a run is any value of
--   `Pipeline.Run.Stages`. Pipeline.Main, for src/bin/s3rm/main.rs: the registration of
--   the user's callbacks and the exit code.
-- - Indicator, for src/bin/s3rm/indicator.rs and ui_config.rs: what the progress indicator counts and
--   when it ends. The channel of statistics is a parameter.
-- - Lua, for src/lua: the callbacks over the operations of an `Engine`, which is a parameter.
-- - Tests: a concrete setting with runs of the model.
--
-- Bounds: the atomic counters are 64-bit and wrap, written `% 2 ^ 64`, as are the sums of the
-- indicator; sizes are `i64` and are cast to `u64` as the code does. Fuel: the listings have it, since
-- an endpoint may name new positions for ever; one unit for each page is enough for the sequential one,
-- and for the parallel one, the pages of a listing for each level of its tasks (`fuel_for`). The
-- indicator has one unit for each of its rounds.
--
-- Not modelled: logging, tracing and terminal output, with the moving averages of the indicator; the
-- handler of Ctrl-C; shell completion; clap and the reading of the environment, before the arguments are
-- converted; the Lua interpreter, of which only the answers and the panics are
-- parameters; the pauses between retries and the waits of the listings for the rate
-- limiter, which change no state of the model; the panics of objects without a key, a size or a time, and
-- of a storage without a client. The counter of `--max-delete` is read and increased in one step with the
-- work on its object. Nobody waits for the outer tasks of a run, which record how the inner ones ended:
-- the model lets each do so before the terminator is joined, before the promotion of warnings, before the
-- completion events, or behind the run, and takes one that records while those events fire for the last.
pub mod Args
pub mod Base
pub mod Types
pub mod Config
pub mod Stage
pub mod Filters
pub mod Storage
pub mod Deleter
pub mod Safety
pub mod Indicator
pub mod Lua
pub mod Pipeline
pub mod Events
pub mod Tests
