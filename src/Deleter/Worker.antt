-- ===== src/Deleter/Worker.antt =====
-- `ObjectDeleter` of src/deleter/mod.rs.
pub mod Flush
pub mod MaxDelete
pub mod DryRun
pub mod Confined
pub mod Requests
use s3rm_rs.Base.{
  ℕ, suc, ◌+◌, ◌%◌, ◌^◌, Bool, true, false, Option, none, some, unwrap_or, String, List, [], ◌∷◌,
  Result, ok, err, M, ◌>>=◌, ◌>>◌, return, modify, if◌then◌else◌, length, leb,
}
use s3rm_rs.Types.Object
use s3rm_rs.Types.Object.{S3Object}
use s3rm_rs.Types.Stats.{delete_error, fetch_add}
use s3rm_rs.Types.Event
use s3rm_rs.Types.Event.{delete_failed}
use s3rm_rs.Types.Error.{Error}
use s3rm_rs.Types.Sdk.{Sdk}
use s3rm_rs.Config.{Config}
use s3rm_rs.Storage.{Storage}
use s3rm_rs.Stage.{Surroundings}
use s3rm_rs.Deleter.World.{
  World, Action, send_stats, trigger_event, set_warning, cancel, is_cancelled,
}
use s3rm_rs.Deleter.Backend.{effective_batch_size}
use s3rm_rs.Deleter.Attributes.{apply_head_object_filters, apply_tag_filters}
use Flush.{delete_buffered_objects}

module _ (x : Sdk) (t : Storage) (config : Config x) (env : Surroundings) where
  abbrev max_delete_message : String
  max_delete_message = "--max-delete has been reached. delete operation has been cancelled."

  -- What follows the flush once the threshold is exceeded.
  unfoldable pub stop_at_max_delete : S3Object x.DateTime → World x t → World x t
  unfolding Object.key
  stop_at_max_delete object w = cancel x t (
      trigger_event x t
        (record (Event.new {F = x.F64} delete_failed) {
          key = some (Object.key object);
          message = some max_delete_message;
        })
        (set_warning x t (send_stats x t (delete_error (Object.key object)) w)))

  abbrev pub flush_and_stop : S3Object x.DateTime → Action x t Bool
  flush_and_stop object = do
    delete_buffered_objects x t config env
    modify (stop_at_max_delete object)
    return true

  abbrev pub count_object : World x t → World x t
  count_object w = record w { delete_counter = fetch_add w.delete_counter 1 }

  -- The count that an object gets is one above the old value of the counter, a `u64`.
  abbrev pub check_against : Option ℕ → S3Object x.DateTime → Action x t Bool
  check_against none object w = (count_object w, ok false)
  check_against (some max_delete) object w =
      let deleted_count = (w.delete_counter + 1) % 2 ^ 64 in
      if leb deleted_count max_delete
      then (count_object w, ok false)
      else flush_and_stop object (count_object w)

  -- `check_max_delete`
  unfoldable pub check_max_delete : S3Object x.DateTime → Action x t Bool
  check_max_delete object = check_against config.max_delete object

  -- `buffer_and_delete`
  unfoldable pub buffer_and_delete : S3Object x.DateTime → Action x t (Unit {0})
  unfolding effective_batch_size
  buffer_and_delete object w =
      let w' = record w { buffer = object ∷ w.buffer } in
      if leb (effective_batch_size x t config) (length w'.buffer)
      then delete_buffered_objects x t config env w'
      else (w', ok tt)

  -- `process_object`
  unfoldable pub process_object : S3Object x.DateTime → Action x t (Unit {0})
  unfolding apply_head_object_filters apply_tag_filters check_max_delete buffer_and_delete
  process_object object = do
    skipped ← apply_head_object_filters x t config object
    if skipped then return tt else (do
      skipped ← apply_tag_filters x t config object
      if skipped then return tt else (do
        stopped ← check_max_delete object
        if stopped then return tt else buffer_and_delete object))

  -- `receive_and_delete`: the loop over what the channel gives until it is closed. `select!` sees a
  -- cancellation while it waits; the loop looks once more behind each object.
  unfoldable pub receive_and_delete : List (S3Object x.DateTime) → Action x t (Unit {0})
  unfolding process_object
  receive_and_delete [] = do
    gone ← is_cancelled x t env
    if gone then return tt else delete_buffered_objects x t config env
  receive_and_delete (object ∷ objects) = do
    gone ← is_cancelled x t env
    if gone then return tt else (do
      process_object object
      gone ← is_cancelled x t env
      if gone then return tt else receive_and_delete objects)
