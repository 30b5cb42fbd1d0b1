-- ===== src/Tests/Reports.antt =====
-- Runs of the reports, of the event manager and of the parser of targets.
use s3rm_rs.Base.{
  ℕ, ◌≡◌, refl, none, some, List, [], ◌∷◌, ◌++◌, map, ok, false, arith, ltb, ◌/◌, ◌-◌, Bool, Option,
  String, ap,
}
use s3rm_rs.Types.Event
use s3rm_rs.Types.Event.{EventData}
use s3rm_rs.Types.Stats
use s3rm_rs.Types.Target.{S3Target, parse, display, is_empty}
use s3rm_rs.Types.Target.Laws.{IsPlain, has_slash, parse-display}
use s3rm_rs.Deleter.World.{DeleteResult}
use s3rm_rs.Deleter.Worker.Flush.{report_result, failed_event}
use s3rm_rs.Deleter.Worker.Flush.Report.{Reports, bytes_of, complete, report_result-Reports}
use s3rm_rs.Events
use s3rm_rs.Events.{Clock, EventManager}
use s3rm_rs.Events.Laws.{Adds, totals, events_of, trigger_all, trigger_all-Adds}
use s3rm_rs.Tests.{sdk, bucket, config, object, world}

abbrev mixed : DeleteResult
mixed = record {
  deleted = record { key = "a"; version_id = none } ∷ [];
  failed =
      record { key = "b"; version_id = none; error_code = "AccessDenied"; error_message = "no" }
      ∷ [];
}

report_result-Reports_example :
    Reports sdk bucket config
      (object "a" ∷ object "b" ∷ [])
      1
      (bytes_of sdk bucket config (object "a" ∷ object "b" ∷ []) mixed.deleted)
      1
      (map (complete sdk bucket config (object "a" ∷ object "b" ∷ [])) mixed.deleted
        ++ map (failed_event sdk bucket config) mixed.failed)
      world
      (report_result sdk bucket config (object "a" ∷ object "b" ∷ []) mixed world)
unfolding Stats.new
report_result-Reports_example =
    report_result-Reports sdk bucket config (object "a" ∷ object "b" ∷ []) mixed world
      (record { objects = omega arith; bytes = omega arith; failed = omega arith })

abbrev ticks : Clock ℕ
ticks = record {
  Instant = ℕ;
  elapsed = λ start now. now - start;
  zero = 0;
  exceeds_one = ltb 1;
  of_count = λ n. n;
  divide = λ a b. a / b;
}

abbrev manager : EventManager ℕ ticks
manager = Events.register_callback ℕ ticks Event.all_events false (Events.new ℕ ticks)

abbrev happened : List (ℕ × EventData ℕ)
happened =
    (0, Event.new Event.pipeline_start)
    ∷ (1, record (Event.new {F = ℕ} Event.delete_complete) { size = some 10 })
    ∷ (4, Event.new Event.pipeline_end)
    ∷ []

trigger_all-Adds_example :
    Adds ℕ ticks
      (totals ℕ ticks (events_of ℕ ticks happened))
      manager.pipeline_stats
      (trigger_all ℕ ticks happened manager).pipeline_stats
unfolding Events.register_callback Events.new
trigger_all-Adds_example = trigger_all-Adds ℕ ticks happened manager (record {
  deleted = omega arith;
  bytes = omega arith;
  failed = omega arith;
  skipped = omega arith;
  errors = omega arith;
})

abbrev photos : S3Target
photos = record { bucket = "photos"; prefix = some "2019/"; endpoint = none; region = none }

abbrev slash_in : Option String → Bool
slash_in none = false
slash_in (some p) = has_slash p

photos-IsPlain : IsPlain photos
unfolding is_empty
photos-IsPlain = record {
  bucket = refl;
  slashes = refl;
  prefix = λ e. ground (arith, ap slash_in e);
}

parse-display_example : parse (display photos) ≡ ok photos
parse-display_example = parse-display photos photos-IsPlain
