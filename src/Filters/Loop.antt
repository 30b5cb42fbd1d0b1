-- ===== src/Filters/Loop.antt =====
-- The loops of the filter stages: `ObjectFilterBase::receive_and_filter` of src/filters/mod.rs and
-- `UserDefinedFilter::receive_and_filter` of src/filters/user_defined.rs.
pub mod Laws
use s3rm_rs.Base.{
  ℕ, suc, ◌+◌, Bool, true, false, not, Option, none, some, String, ◌<>◌, List, [], ◌∷◌, Result, ok,
  err, if◌then◌else◌, unwrap_or, ◌||◌,
}
use s3rm_rs.Base.Int.{as_u64}
use s3rm_rs.Types.Object
use s3rm_rs.Types.Object.{S3Object}
use s3rm_rs.Types.Stats.{DeletionStatistics, delete_skip}
use s3rm_rs.Types.Event
use s3rm_rs.Types.Event.{EventData, delete_filtered, pipeline_error}
use s3rm_rs.Types.Error.{Error, message, to_string}
use s3rm_rs.Types.Sdk.{Sdk}
use s3rm_rs.Stage.{Surroundings, SendResult, success, closed, send}

module _ (x : Sdk) where
  -- What one filter stage does: the objects that it passes on, the statistics that it sends and
  -- the events that it triggers (each oldest first), and whether it cancelled the pipeline.
  pub record Trace : Type 0 where
    pub passed : List (S3Object x.DateTime)
    pub stats : List DeletionStatistics
    pub events : List (EventData x.F64)
    pub cancelled : Bool
    pub outcome : Result (Unit {0}) Error

  abbrev pub ended : Result (Unit {0}) Error → Trace
  ended r = record { passed = []; stats = []; events = []; cancelled = false; outcome = r }

  -- The `DELETE_FILTERED` event of an object, with its message.
  unfoldable pub filtered_event : S3Object x.DateTime → String → EventData x.F64
  unfolding Object.key Object.version_id Object.size Object.last_modified
  filtered_event object text = record (Event.new {F = x.F64} delete_filtered) {
    key = some (Object.key object);
    version_id = Object.version_id object;
    size = some (as_u64 (Object.size object));
    last_modified = some (unwrap_or (x.fmt (Object.last_modified object)) "");
    message = some text;
  }

  abbrev emit : Bool → EventData x.F64 → List (EventData x.F64) → List (EventData x.F64)
  emit registered event rest = if registered then event ∷ rest else rest

  -- An object that is filtered out, and the trace of the loop from there.
  abbrev skipped : Bool → EventData x.F64 → S3Object x.DateTime → Trace → Trace
  skipped registered event object rest = record rest {
    stats = delete_skip (Object.key object) ∷ rest.stats;
    events = emit registered event rest.events;
  }

  -- `self.base.send(object).await?`, and the trace of the loop from there.
  abbrev forwarded : Result SendResult Error → S3Object x.DateTime → Trace → Trace
  forwarded (ok success) object rest = record rest { passed = object ∷ rest.passed }
  forwarded (ok closed) object rest = ended (ok tt)
  forwarded (err e) object rest = ended (err e)

  module _ (env : Surroundings) (registered : Bool) where
    -- The loop over what the receiver gives until its channel closes. The rounds and the attempts
    -- to send are counted, to ask the surroundings.
    unfoldable pub receive_and_filter :
        String → (S3Object x.DateTime → Bool) → ℕ → ℕ → List (S3Object x.DateTime) → Trace
    unfolding filtered_event send
    receive_and_filter name filter_fn round sends [] = ended (ok tt)
    receive_and_filter name filter_fn round sends (object ∷ input) =
        let skip =
          skipped registered (filtered_event object ("Object filtered by " <> name)) object
            (receive_and_filter name filter_fn (suc round) sends input) in
        let forward =
          forwarded (send env sends) object
            (receive_and_filter name filter_fn (suc round) (suc sends) input) in
        if env.is_cancelled round
        then ended (ok tt)
        else if not (filter_fn object)
        then skip
        else forward

    -- `PIPELINE_ERROR` of a callback that fails.
    unfoldable pub callback_error_event : Error → EventData x.F64
    callback_error_event e = record (Event.new {F = x.F64} pipeline_error) {
      message = some ("User defined filter error: " <> to_string e);
    }

    abbrev failed_callback : Error → Trace
    failed_callback e = record {
      passed = [];
      stats = [];
      events = emit registered (callback_error_event e) [];
      cancelled = true;
      outcome = err (message ("user defined filter worker cancelled with error: " <> to_string e));
    }

    -- `execute_filter`, or no callback: every object passes.
    abbrev need_delete :
        Option (ℕ → S3Object x.DateTime → Result Bool Error)
        → ℕ
        → S3Object x.DateTime
        → Result Bool Error
    need_delete none round object = ok true
    need_delete (some execute) round object = execute round object

    -- The callback may keep a state of its own: its answers depend on the round.
    unfoldable pub user_defined_filter :
        Option (ℕ → S3Object x.DateTime → Result Bool Error)
        → ℕ
        → ℕ
        → List (S3Object x.DateTime)
        → Trace
    unfolding filtered_event send callback_error_event
    user_defined_filter callback round sends [] = ended (ok tt)
    user_defined_filter callback round sends (object ∷ input) =
        let skip =
          skipped registered (filtered_event object "Object filtered by user defined filter") object
            (user_defined_filter callback (suc round) sends input) in
        let forward =
          forwarded (send env sends) object
            (user_defined_filter callback (suc round) (suc sends) input) in
        let judged : Trace = elim (need_delete callback round object) [
          | err e ↦ failed_callback e
          | ok true ↦ forward
          | ok false ↦ skip
        ] in
        if env.is_cancelled round then ended (ok tt) else judged
