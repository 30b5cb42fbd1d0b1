-- ===== src/Pipeline.antt =====
-- `DeletionPipeline` of src/pipeline.rs: its state and the parts of a run.
pub mod Prerequisites
pub mod Run
pub mod Main
use s3rm_rs.Base.{
  Bool, true, false, Option, none, some, String, ◌<>◌, List, [], ◌∷◌, ◌++◌, map, if◌then◌else◌,
}
use s3rm_rs.Types.Event
use s3rm_rs.Types.Event.{EventData}
use s3rm_rs.Types.Stats
use s3rm_rs.Types.Stats.{DeletionStats, DeletionStatsReport, snapshot}
use s3rm_rs.Types.Error.{Error, message, to_string, is_cancelled_error}
use s3rm_rs.Types.Sdk.{Sdk}
use s3rm_rs.Config.{Config}
use s3rm_rs.Storage.{Storage}

-- One of the tasks that run the stages.
pub data Task : Type 0 where
  lister filter user_defined worker : Task

-- What `JoinHandle` gives of a task: `Ok(Ok(()))`, `Ok(Err(e))`, or a panic's text.
pub data Joined : Type 0 where
  finished : Joined
  failed : Error → Joined
  panicked : String → Joined

module _ (x : Sdk) (t : Storage) where
  -- Errors stand oldest first, the log of events newest first. `stats_closed` says that the sender
  -- of statistics was closed.
  pub record Pipeline : Type 0 where
    pub config : Config x
    pub target : t.State
    pub cancelled : Bool
    pub has_error : Bool
    pub has_panic : Bool
    pub has_warning : Bool
    pub errors : List Error
    pub ready : Bool
    pub prerequisites_checked : Bool
    pub deletion_stats_report : DeletionStatsReport
    pub stats_closed : Bool
    pub events : List (EventData x.F64)

  -- `DeletionPipeline::new`
  unfoldable pub new : Config x → t.State → Pipeline
  unfolding Stats.new
  new config target = record {
    config = config;
    target = target;
    cancelled = false;
    has_error = false;
    has_panic = false;
    has_warning = false;
    errors = [];
    ready = true;
    prerequisites_checked = false;
    deletion_stats_report = Stats.new;
    stats_closed = false;
    events = [];
  }

  abbrev pub trigger_event : EventData x.F64 → Pipeline → Pipeline
  trigger_event e p = record p { events = e ∷ p.events }

  -- `record_error`
  unfoldable pub record_error : Error → Pipeline → Pipeline
  record_error e p = record p { has_error = true; errors = p.errors ++ e ∷ [] }

  abbrev set_panic : Pipeline → Pipeline
  set_panic p = record p { has_panic = true }

  abbrev cancel : Pipeline → Pipeline
  cancel p = record p { cancelled = true }

  abbrev panic_text : Task → String
  panic_text lister = "object lister task panicked: "
  panic_text filter = "filter task panicked: "
  panic_text user_defined = "user defined filter panicked: "
  panic_text worker = "delete worker panicked: "

  -- A worker that ends with the error of a cancellation is not counted as failed.
  abbrev is_tolerated : Task → Error → Bool
  is_tolerated worker e = is_cancelled_error e
  is_tolerated _ e = false

  -- What the outer task of `list_target`, `spawn_filter`, `filter_objects` and `delete_objects` does
  -- when the inner one has ended:
  -- the arms are the same in all four, but for the texts and for the worker's cancellation.
  unfoldable pub settle : Task → Joined → Pipeline → Pipeline
  unfolding record_error
  settle task finished p = p
  settle task (failed e) p = if is_tolerated task e then p else record_error e (cancel p)
  settle task (panicked m) p = set_panic (record_error (message (panic_text task <> m)) (cancel p))

  -- `get_errors_and_consume`
  unfoldable pub get_errors_and_consume : Pipeline → Pipeline × Option (List Error)
  get_errors_and_consume p =
      if p.has_error then (record p { errors = [] }, some p.errors) else (p, none)

  -- `get_error_messages`
  unfoldable pub get_error_messages : Pipeline → Option (List String)
  unfolding to_string
  get_error_messages p = if p.has_error then some (map to_string p.errors) else none

  -- `get_deletion_stats`
  unfoldable pub get_deletion_stats : Pipeline → DeletionStats
  unfolding snapshot
  get_deletion_stats p = snapshot p.deletion_stats_report

  -- `shutdown` and `close_stats_sender`
  unfoldable pub shutdown : Pipeline → Pipeline
  shutdown p = record p { stats_closed = true }

  abbrev first_of : Option (List String) → String
  first_of none = "Unknown error"
  first_of (some []) = "Unknown error"
  first_of (some (m ∷ ms)) = m

  unfoldable pub error_event : Pipeline → EventData x.F64
  unfolding get_error_messages
  error_event p = record (Event.new {F = x.F64} Event.pipeline_error) {
    message = some (first_of (get_error_messages p));
  }

  abbrev pub cancel_event : EventData x.F64
  cancel_event = record (Event.new {F = x.F64} Event.delete_cancel) {
    message = some "Pipeline was cancelled";
  }

  abbrev fire_error : Pipeline → Pipeline
  fire_error p = if p.has_error then trigger_event (error_event p) p else p

  abbrev fire_cancel : Pipeline → Pipeline
  fire_cancel p = if p.cancelled then trigger_event cancel_event p else p

  -- `fire_completion_events`
  unfoldable pub fire_completion_events : Pipeline → Pipeline
  unfolding error_event
  fire_completion_events p =
      trigger_event (Event.new {F = x.F64} Event.pipeline_end) (fire_cancel (fire_error p))
