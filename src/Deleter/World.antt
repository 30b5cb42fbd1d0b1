-- ===== src/Deleter/World.antt =====
-- What a delete worker of src/deleter/mod.rs reads and changes, and the calls of its `Stage`.
use s3rm_rs.Base.{ℕ, suc, Bool, true, ◌||◌, Option, String, List, ◌∷◌, Result, ok, M}
use s3rm_rs.Types.Object.{S3Object}
use s3rm_rs.Types.Stats.{DeletionStatistics, DeletionStatsReport}
use s3rm_rs.Types.Event.{EventData}
use s3rm_rs.Types.Error.{Error}
use s3rm_rs.Types.Sdk.{Sdk}
use s3rm_rs.Storage.{Storage}
use s3rm_rs.Stage.{Surroundings, SendResult, success}
use s3rm_rs.Stage

-- `DeletedKey` and `FailedKey`
pub record DeletedKey : Type 0 where
  pub key : String
  pub version_id : Option String

pub record FailedKey : Type 0 where
  pub key : String
  pub version_id : Option String
  pub error_code : String
  pub error_message : String

-- `DeleteResult`, oldest first
pub record DeleteResult : Type 0 where
  pub deleted : List DeletedKey
  pub failed : List FailedKey

module _ (x : Sdk) (t : Storage) where
  -- The pipeline's shared state as a worker sees it, and the worker's `buffer`, which holds the
  -- newest object first, as do the logs of what was sent on each channel and given to
  -- `trigger_event`. `reads` and `sends` count the questions to the surroundings.
  pub record World : Type 0 where
    pub target : t.State
    pub cancelled : Bool
    pub has_warning : Bool
    pub stats : List DeletionStatistics
    pub events : List (EventData x.F64)
    pub report : DeletionStatsReport
    pub delete_counter : ℕ
    pub buffer : List (S3Object x.DateTime)
    pub sent : List (S3Object x.DateTime)
    pub reads : ℕ
    pub sends : ℕ

  abbrev pub Action : Type 0 → Type 0
  Action A = M World Error A

  -- A call of the target.
  abbrev pub call : {A : Type 0} → (t.State → t.State × Result A Error) → Action A
  call request w = let (s, r) = request w.target in (record w { target = s }, r)

  -- The answer of a call, as a value: `match .. { Ok .. Err .. }`.
  abbrev pub attempt : {A : Type 0} → (t.State → t.State × Result A Error) → Action (Result A Error)
  attempt request w = let (s, r) = request w.target in (record w { target = s }, ok r)

  abbrev pub send_stats : DeletionStatistics → World → World
  send_stats s w = record w { stats = s ∷ w.stats }

  abbrev pub trigger_event : EventData x.F64 → World → World
  trigger_event e w = record w { events = e ∷ w.events }

  abbrev pub set_warning : World → World
  set_warning w = record w { has_warning = true }

  -- `cancellation_token.cancel()`
  abbrev pub cancel : World → World
  cancel w = record w { cancelled = true }

  -- `?` on a result without a state.
  abbrev pub lift : {A : Type 0} → Result A Error → Action A
  lift r w = (w, r)

  module _ (env : Surroundings) where
    -- `cancellation_token.is_cancelled()`: this worker or another task has cancelled.
    abbrev pub is_cancelled : Action Bool
    is_cancelled w =
        (record w { reads = suc w.reads }, ok (w.cancelled || env.is_cancelled w.reads))

    abbrev pub record_sent :
        S3Object x.DateTime → Result SendResult Error → World → World × Result SendResult Error
    record_sent object (ok success) w = (record w { sent = object ∷ w.sent }, ok success)
    record_sent object r w = (w, r)

    -- `self.base.send(object)`
    abbrev pub send : S3Object x.DateTime → Action SendResult
    send object w = record_sent object (Stage.send env w.sends) (record w { sends = suc w.sends })
