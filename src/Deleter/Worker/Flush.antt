-- ===== src/Deleter/Worker/Flush.antt =====
-- `delete_buffered_objects` of src/deleter/mod.rs.
pub mod Budget
pub mod Frame
pub mod DryRun
pub mod Confined
pub mod Report
use mathlib.Core.List.{reverse}
use s3rm_rs.Base.{
  ℕ, Bool, true, false, Option, none, some, unwrap_or, String, ◌<>◌, List, [], ◌∷◌, map, Result, ok,
  err, M, ◌>>=◌, ◌>>◌, return, modify, for_each, if◌then◌else◌,
}
use s3rm_rs.Base.Int.{as_u64}
use s3rm_rs.Types.Object
use s3rm_rs.Types.Object.{S3Object}
use s3rm_rs.Types.Stats.{delete_complete, delete_bytes, increment_deleted, increment_failed}
use s3rm_rs.Types.Event
use s3rm_rs.Types.Event.{EventData}
use s3rm_rs.Types.Error.{Error, context}
use s3rm_rs.Types.Sdk.{Sdk}
use s3rm_rs.Config.{Config}
use s3rm_rs.Storage.{Storage}
use s3rm_rs.Stage.{Surroundings, SendResult, success, closed}
use s3rm_rs.Deleter.World.{
  DeletedKey, FailedKey, DeleteResult, World, Action, send_stats, trigger_event, set_warning,
  cancel, is_cancelled, send,
}
use s3rm_rs.Deleter.Backend.{lookup_object, delete}

module _ (x : Sdk) (t : Storage) (config : Config x) where
  -- The result of a dry run: every object counts as deleted, and no call is made.
  unfoldable pub dry_run_result : List (S3Object x.DateTime) → DeleteResult
  unfolding Object.key Object.version_id
  dry_run_result batch = record {
    deleted = map (λ o. record { key = Object.key o; version_id = Object.version_id o }) batch;
    failed = [];
  }

  -- `obj_by_key.get(..)`: the size and the formatted time of a deleted key.
  abbrev size_of : Option (S3Object x.DateTime) → ℕ
  size_of none = 0
  size_of (some o) = as_u64 (Object.size o)

  abbrev time_of : Option (S3Object x.DateTime) → String
  time_of none = ""
  time_of (some o) = unwrap_or (x.fmt (Object.last_modified o)) ""

  unfoldable pub complete_event : DeletedKey → Option (S3Object x.DateTime) → EventData x.F64
  unfolding Object.size Object.last_modified
  complete_event dk found = record (Event.new {F = x.F64} Event.delete_complete) {
    dry_run = config.dry_run;
    key = some dk.key;
    version_id = dk.version_id;
    size = some (size_of found);
    last_modified = some (time_of found);
  }

  -- One round of the loop over the successes.
  unfoldable pub report_deleted : List (S3Object x.DateTime) → DeletedKey → World x t → World x t
  unfolding lookup_object complete_event increment_deleted
  report_deleted batch dk w =
      let found = lookup_object dk.key dk.version_id batch in
      let size = size_of found in
      trigger_event x t (complete_event dk found) (
        send_stats x t (delete_bytes size) (
          send_stats x t (delete_complete dk.key)
            (record w { report = increment_deleted size w.report })))

  unfoldable pub failed_event : FailedKey → EventData x.F64
  failed_event fk = record (Event.new {F = x.F64} Event.delete_failed) {
    dry_run = config.dry_run;
    key = some fk.key;
    version_id = fk.version_id;
    error_message = some (fk.error_code <> (": " <> fk.error_message));
  }

  -- One round of the loop over the failures.
  unfoldable pub report_failed : FailedKey → World x t → World x t
  unfolding failed_event increment_failed
  report_failed fk w =
      trigger_event x t (failed_event fk) (record w { report = increment_failed w.report })

  -- The two loops.
  unfoldable pub report_result : List (S3Object x.DateTime) → DeleteResult → World x t → World x t
  unfolding report_deleted report_failed
  report_result batch r w =
      for_each report_failed r.failed (for_each (report_deleted batch) r.deleted w)

  module _ (env : Surroundings) where
    abbrev pub unless_closed : SendResult → Action x t (Unit {0}) → Action x t (Unit {0})
    unless_closed success rest = rest
    unless_closed closed rest = return tt

    -- The loop that forwards the batch; it ends at a closed channel.
    unfoldable pub forward : List (S3Object x.DateTime) → Action x t (Unit {0})
    forward [] = return tt
    forward (o ∷ objects) = do sent ← send x t env o; unless_closed sent (forward objects)

    -- What follows the two loops. `some failures` are warned of, and end the worker's flush under
    -- `warn_as_error`.
    unfoldable pub finish : List (S3Object x.DateTime) → List FailedKey → Action x t (Unit {0})
    unfolding forward
    finish batch [] = forward batch
    finish batch (f ∷ failed) = do
      modify (set_warning x t)
      if config.warn_as_error then (do modify (cancel x t); return tt) else forward batch

    abbrev pub cancel_on_error :
        World x t × Result DeleteResult Error → World x t × Result DeleteResult Error
    cancel_on_error (w, ok r) = (w, ok r)
    cancel_on_error (w, err e) =
        (cancel x t w, err (context "delete worker has been cancelled with error." e))

    -- The call of the backend, or its simulation.
    unfoldable pub delete_result : List (S3Object x.DateTime) → Action x t DeleteResult
    unfolding dry_run_result delete
    delete_result batch w =
        if config.dry_run
        then (w, ok (dry_run_result batch))
        else cancel_on_error (delete x t config batch w)

    -- The batch that is taken from the buffer, oldest first.
    unfoldable pub delete_batch : List (S3Object x.DateTime) → Action x t (Unit {0})
    unfolding delete_result report_result finish
    delete_batch batch = do
      r ← delete_result batch
      modify (report_result batch r)
      finish batch r.failed

    abbrev pub flush : List (S3Object x.DateTime) → Action x t (Unit {0})
    flush [] = return tt
    flush (o ∷ older) = do
      gone ← is_cancelled x t env
      if gone
          then return tt
          else (do modify (λ w. record w { buffer = [] }); delete_batch (reverse (o ∷ older)))

    unfoldable pub delete_buffered_objects : Action x t (Unit {0})
    unfolding delete_batch
    delete_buffered_objects w = flush w.buffer w
