-- ===== src/Events.antt =====
-- `EventManager` of src/callback/event_manager.rs.
pub mod Laws
use s3rm_rs.Base.{
  ℕ, ◌+◌, ◌%◌, ◌^◌, Bool, true, false, ◌&&◌, Option, none, some, List, [], ◌∷◌, if◌then◌else◌,
}
use s3rm_rs.Types.Event
use s3rm_rs.Types.Event.{
  EventType, EventData, undefined, pipeline_start, pipeline_end, delete_complete, delete_failed,
  delete_filtered, pipeline_error, delete_cancel, stats_report, contains, all_events,
}
use s3rm_rs.Types.Stats.{fetch_add}

-- `tokio::time::Instant` and the operations of `f64` that the manager uses.
pub record Clock (F : Type 0) : Type 1 where
  pub Instant : Type 0
  -- From a start to now.
  pub elapsed : Instant → Instant → F
  pub zero : F
  pub exceeds_one : F → Bool
  pub of_count : ℕ → F
  pub divide : F → F → F

module _ (F : Type 0) (clock : Clock F) where
  pub record PipelineStats : Type 0 where
    pub pipeline_start_time : Option clock.Instant
    pub stats_deleted_objects : ℕ
    pub stats_deleted_bytes : ℕ
    pub stats_failed_objects : ℕ
    pub stats_skipped_objects : ℕ
    pub stats_error_count : ℕ
    pub stats_duration_sec : F
    pub stats_objects_per_sec : F

  -- The derived `PipelineStats::default`.
  unfoldable pub no_stats : PipelineStats
  no_stats = record {
    pipeline_start_time = none;
    stats_deleted_objects = 0;
    stats_deleted_bytes = 0;
    stats_failed_objects = 0;
    stats_skipped_objects = 0;
    stats_error_count = 0;
    stats_duration_sec = clock.zero;
    stats_objects_per_sec = clock.zero;
  }

  -- The conversion of the statistics to a `STATS_REPORT` event.
  unfoldable pub stats_event : PipelineStats → EventData F
  stats_event s = record (Event.new {F = F} stats_report) {
    stats_deleted_objects = some s.stats_deleted_objects;
    stats_deleted_bytes = some s.stats_deleted_bytes;
    stats_failed_objects = some s.stats_failed_objects;
    stats_skipped_objects = some s.stats_skipped_objects;
    stats_error_count = some s.stats_error_count;
    stats_duration_sec = some s.stats_duration_sec;
    stats_objects_per_sec = some s.stats_objects_per_sec;
  }

  -- `event_callback` is kept as whether it is there, with the log of the events that it was given,
  -- newest first.
  pub record EventManager : Type 0 where
    pub is_callback_registered : Bool
    pub event_flags : ℕ
    pub dry_run : Bool
    pub pipeline_stats : PipelineStats
    pub received : List (EventData F)

  -- `EventManager::new`
  unfoldable pub new : EventManager
  unfolding no_stats
  new = record {
    is_callback_registered = false;
    event_flags = all_events;
    dry_run = false;
    pipeline_stats = no_stats;
    received = [];
  }

  -- `register_callback`
  unfoldable pub register_callback : ℕ → Bool → EventManager → EventManager
  register_callback events_flag dry_run m = record m {
    is_callback_registered = true;
    event_flags = events_flag;
    dry_run = dry_run;
  }

  abbrev objects_per_sec : PipelineStats → F → F
  objects_per_sec s duration =
      if clock.exceeds_one duration
      then clock.divide (clock.of_count s.stats_deleted_objects) duration
      else clock.of_count s.stats_deleted_objects

  abbrev end_at : Option clock.Instant → clock.Instant → PipelineStats → PipelineStats
  end_at none now s = s
  end_at (some start) now s = record s {
    stats_duration_sec = clock.elapsed start now;
    stats_objects_per_sec = objects_per_sec s (clock.elapsed start now);
  }

  abbrev size_or_0 : Option ℕ → ℕ
  size_or_0 none = 0
  size_or_0 (some size) = size

  -- `update_pipeline_stats` at a time. `+=` on a `u64` wraps, as it does in a release build.
  unfoldable pub update_pipeline_stats :
      clock.Instant → EventType → Option ℕ → PipelineStats → PipelineStats
  update_pipeline_stats now pipeline_start size s = record s { pipeline_start_time = some now }
  update_pipeline_stats now pipeline_end size s = end_at s.pipeline_start_time now s
  update_pipeline_stats now delete_complete size s = record s {
    stats_deleted_objects = fetch_add s.stats_deleted_objects 1;
    stats_deleted_bytes = fetch_add s.stats_deleted_bytes (size_or_0 size);
  }
  update_pipeline_stats now delete_failed size s = record s {
    stats_failed_objects = fetch_add s.stats_failed_objects 1;
  }
  update_pipeline_stats now delete_filtered size s = record s {
    stats_skipped_objects = fetch_add s.stats_skipped_objects 1;
  }
  update_pipeline_stats now pipeline_error size s = record s {
    stats_error_count = fetch_add s.stats_error_count 1;
  }
  update_pipeline_stats now undefined size s = s
  update_pipeline_stats now delete_cancel size s = s
  update_pipeline_stats now stats_report size s = s

  abbrev give : EventData F → EventManager → EventManager
  give e m = record m { received = record e { dry_run = m.dry_run } ∷ m.received }

  abbrev is_end : EventType → Bool
  is_end pipeline_end = true
  is_end _ = false

  abbrev dispatch : EventData F → EventManager → EventManager
  dispatch e m =
      let m' = if contains m.event_flags e.event_type then give e m else m in
      if is_end e.event_type && contains m.event_flags stats_report
      then give (stats_event m.pipeline_stats) m'
      else m'

  -- `trigger_event` at a time.
  unfoldable pub trigger_event : clock.Instant → EventData F → EventManager → EventManager
  unfolding update_pipeline_stats stats_event contains
  trigger_event now e m =
      let m' = record m {
        pipeline_stats = update_pipeline_stats now e.event_type e.size m.pipeline_stats;
      } in
      if m.is_callback_registered then dispatch e m' else m'
