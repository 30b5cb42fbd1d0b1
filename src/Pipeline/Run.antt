-- ===== src/Pipeline/Run.antt =====
-- `run` and `execute_pipeline` of src/pipeline.rs.
pub mod Laws
pub mod Errors
use s3rm_rs.Base.{
  Bool, true, false, ◌&&◌, Option, none, some, String, ◌<>◌, List, [], ◌∷◌, ◌++◌, Result, ok, err,
  for_each, if◌then◌else◌, ◌||◌,
}
use s3rm_rs.Types.Event
use s3rm_rs.Types.Error.{Error, message}
use s3rm_rs.Types.Sdk.{Sdk}
use s3rm_rs.Types.Stats.{DeletionStatsReport}
use s3rm_rs.Types.Event.{EventData}
use s3rm_rs.Storage.{Storage}
use s3rm_rs.Safety.{PromptHandler}
use s3rm_rs.Pipeline.{
  Pipeline, Task, Joined, trigger_event, record_error, set_panic, settle, shutdown,
  fire_completion_events,
}
use s3rm_rs.Pipeline.Prerequisites.{check_prerequisites}
use s3rm_rs.Config.{Config}

module _ (x : Sdk) (t : Storage) where
  -- One way in which the tasks of the stages may run: what they leave at the target, whether one
  -- warned or cancelled, the report and the events they made (newest first), how tasks ended, in the
  -- order in which this was recorded, and the text of a panic of the terminator. Nobody waits for the
  -- outer tasks, which record how the inner ones ended: they do so before the terminator is joined
  -- (`joins`), between that and the promotion of warnings (`late_joins`), between that and the
  -- completion (`last_joins`), or later, which is no part of the run.
  pub record Stages : Type 0 where
    pub target : t.State
    pub warned : Bool
    pub cancelled : Bool
    pub report : DeletionStatsReport
    pub fired : List (EventData x.F64)
    pub joins : List (Task × Joined)
    pub late_joins : List (Task × Joined)
    pub last_joins : List (Task × Joined)
    pub terminator_panic : Option String

  -- The stages run on the configuration and the target that `check_prerequisites` leaves.
  abbrev pub Execution : Type 0
  Execution = Config x → t.State → Stages

  abbrev run_stages : Stages → Pipeline x t → Pipeline x t
  run_stages s p = record p {
    target = s.target;
    has_warning = p.has_warning || s.warned;
    cancelled = p.cancelled || s.cancelled;
    deletion_stats_report = s.report;
    events = s.fired ++ p.events;
  }

  abbrev pub settle_each : Task × Joined → Pipeline x t → Pipeline x t
  settle_each (task, joined) = settle x t task joined

  abbrev join_terminator : Option String → Pipeline x t → Pipeline x t
  join_terminator none p = p
  join_terminator (some m) p =
      record_error x t (message ("terminator task panicked: " <> m)) (set_panic x t p)

  unfoldable pub promote_warnings : Pipeline x t → Pipeline x t
  unfolding record_error
  promote_warnings p =
      if p.config.warn_as_error && p.has_warning
      then record_error x t (message "warnings promoted to errors (--warn-as-error)") p
      else p

  -- `execute_pipeline`
  unfoldable pub execute_pipeline : Stages → Pipeline x t → Pipeline x t
  unfolding settle record_error promote_warnings
  execute_pipeline s p =
      let ended =
        join_terminator s.terminator_panic (for_each settle_each s.joins (run_stages s p)) in
      for_each settle_each s.last_joins (promote_warnings (for_each settle_each s.late_joins ended))

  abbrev complete : Pipeline x t → Pipeline x t
  complete p = fire_completion_events x t (shutdown x t p)

  abbrev pub check_once : PromptHandler → Pipeline x t → Pipeline x t × Result (Unit {0}) Error
  check_once h p = if p.prerequisites_checked then (p, ok tt) else check_prerequisites x t h p

  abbrev continue : Execution → Pipeline x t × Result (Unit {0}) Error → Pipeline x t
  continue e (p, err error) = complete (record_error x t error p)
  continue e (p, ok u) = complete (execute_pipeline (e p.config p.target) p)

  abbrev pub begin : Pipeline x t → Pipeline x t
  begin p =
      trigger_event x t (Event.new {F = x.F64} Event.pipeline_start) (record p { ready = false })

  -- `run`; `none` is the panic of a second run.
  unfoldable pub run : PromptHandler → Execution → Pipeline x t → Option (Pipeline x t)
  unfolding check_prerequisites record_error execute_pipeline shutdown fire_completion_events
  run h e p = if p.ready then some (continue e (check_once h (begin p))) else none
