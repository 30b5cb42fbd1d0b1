-- ===== src/Events/Laws.antt =====
-- The statistics of src/callback/event_manager.rs, against the events it was given.
use s3rm_rs.Base.{
  ℕ, suc, ◌+◌, ◌%◌, ◌^◌, ◌<◌, ◌≡◌, refl, ap, ◌∙◌, ◌&&◌, Option, none, some, List, [], ◌∷◌,
  if◌then◌else◌, arith, if_either, sym, subst,
}
use s3rm_rs.Types.Event.{
  EventType, EventData, undefined, pipeline_start, pipeline_end, delete_complete, delete_failed,
  delete_filtered, pipeline_error, delete_cancel, stats_report, contains,
}
use s3rm_rs.Events.{
  Clock, PipelineStats, EventManager, trigger_event, update_pipeline_stats, size_or_0, end_at,
  is_end, give,
}

module _ (F : Type 0) (clock : Clock F) where
  -- The numbers of the events of one kind, and the bytes, that a list of events tells of.
  pub record Totals : Type 0 where
    pub deleted : ℕ
    pub bytes : ℕ
    pub failed : ℕ
    pub skipped : ℕ
    pub errors : ℕ

  abbrev tally : EventType → Option ℕ → Totals → Totals
  tally delete_complete size c = record c {
    deleted = suc c.deleted;
    bytes = size_or_0 F clock size + c.bytes;
  }
  tally delete_failed size c = record c { failed = suc c.failed }
  tally delete_filtered size c = record c { skipped = suc c.skipped }
  tally pipeline_error size c = record c { errors = suc c.errors }
  tally _ size c = c

  abbrev pub totals : List (EventData F) → Totals
  totals [] = record { deleted = 0; bytes = 0; failed = 0; skipped = 0; errors = 0 }
  totals (e ∷ es) = tally e.event_type e.size (totals es)

  -- The statistics s with the totals c added to each counter, modulo 2 ^ 64.
  pub record Adds (c : Totals) (s s' : PipelineStats F clock) : Type 0 where
    pub deleted : s'.stats_deleted_objects ≡ (s.stats_deleted_objects + c.deleted) % 2 ^ 64
    pub bytes : s'.stats_deleted_bytes ≡ (s.stats_deleted_bytes + c.bytes) % 2 ^ 64
    pub failed : s'.stats_failed_objects ≡ (s.stats_failed_objects + c.failed) % 2 ^ 64
    pub skipped : s'.stats_skipped_objects ≡ (s.stats_skipped_objects + c.skipped) % 2 ^ 64
    pub errors : s'.stats_error_count ≡ (s.stats_error_count + c.errors) % 2 ^ 64

  abbrev update_all :
      List (clock.Instant × EventData F) → PipelineStats F clock → PipelineStats F clock
  update_all [] s = s
  update_all ((now, e) ∷ es) s =
      update_all es (update_pipeline_stats F clock now e.event_type e.size s)

  abbrev pub events_of : List (clock.Instant × EventData F) → List (EventData F)
  events_of [] = []
  events_of ((now, e) ∷ es) = e ∷ events_of es

  pub record IsU64 (s : PipelineStats F clock) : Type 0 where
    pub deleted : s.stats_deleted_objects < 2 ^ 64
    pub bytes : s.stats_deleted_bytes < 2 ^ 64
    pub failed : s.stats_failed_objects < 2 ^ 64
    pub skipped : s.stats_skipped_objects < 2 ^ 64
    pub errors : s.stats_error_count < 2 ^ 64

  end_at-IsU64 :
      (o : Option clock.Instant) (now : clock.Instant) (s : PipelineStats F clock)
      → IsU64 s
      → IsU64 (end_at F clock o now s)
  end_at-IsU64 none now s h = h
  end_at-IsU64 (some start) now s h = ground arith

  update-IsU64 :
      (now : clock.Instant) (ty : EventType) (size : Option ℕ) (s : PipelineStats F clock)
      → IsU64 s
      → IsU64 (update_pipeline_stats F clock now ty size s)
  unfolding update_pipeline_stats
  update-IsU64 now pipeline_start size s h = ground arith
  update-IsU64 now pipeline_end size s h = end_at-IsU64 s.pipeline_start_time now s h
  update-IsU64 now delete_complete size s h = ground arith
  update-IsU64 now delete_failed size s h = ground arith
  update-IsU64 now delete_filtered size s h = ground arith
  update-IsU64 now pipeline_error size s h = ground arith
  update-IsU64 now undefined size s h = h
  update-IsU64 now delete_cancel size s h = h
  update-IsU64 now stats_report size s h = h

  end_at-Adds :
      (c : Totals) (o : Option clock.Instant) (now : clock.Instant) (s s' : PipelineStats F clock)
      → Adds c (end_at F clock o now s) s'
      → Adds c s s'
  end_at-Adds c none now s s' h = h
  end_at-Adds c (some start) now s s' h = record {
    deleted = h.deleted;
    bytes = h.bytes;
    failed = h.failed;
    skipped = h.skipped;
    errors = h.errors;
  }

  update-Adds :
      (c : Totals) (now : clock.Instant) (ty : EventType) (size : Option ℕ)
      (s s' : PipelineStats F clock)
      → Adds c (update_pipeline_stats F clock now ty size s) s'
      → Adds (tally ty size c) s s'
  unfolding update_pipeline_stats
  update-Adds c now pipeline_start size s s' h = record {
    deleted = h.deleted;
    bytes = h.bytes;
    failed = h.failed;
    skipped = h.skipped;
    errors = h.errors;
  }
  update-Adds c now pipeline_end size s s' h = end_at-Adds c s.pipeline_start_time now s s' h
  update-Adds c now delete_complete size s s' h = ground arith
  update-Adds c now delete_failed size s s' h = ground arith
  update-Adds c now delete_filtered size s s' h = ground arith
  update-Adds c now pipeline_error size s s' h = ground arith
  update-Adds c now undefined size s s' h = h
  update-Adds c now delete_cancel size s s' h = h
  update-Adds c now stats_report size s s' h = h

  update_all-Adds :
      (es : List (clock.Instant × EventData F)) (s : PipelineStats F clock)
      → IsU64 s
      → Adds (totals (events_of es)) s (update_all es s)
  update_all-Adds [] s h = record {
    deleted = omega (arith, h.deleted);
    bytes = omega (arith, h.bytes);
    failed = omega (arith, h.failed);
    skipped = omega (arith, h.skipped);
    errors = omega (arith, h.errors);
  }
  update_all-Adds ((now, e) ∷ es) s h =
      update-Adds (totals (events_of es)) now e.event_type e.size s _
        (update_all-Adds es _ (update-IsU64 now e.event_type e.size s h))

  -- The manager behind a list of events.
  abbrev pub trigger_all :
      List (clock.Instant × EventData F) → EventManager F clock → EventManager F clock
  trigger_all [] m = m
  trigger_all ((now, e) ∷ es) m = trigger_all es (trigger_event F clock now e m)

  trigger_event-stats :
      (now : clock.Instant) (e : EventData F) (m : EventManager F clock)
      → (trigger_event F clock now e m).pipeline_stats
        ≡ update_pipeline_stats F clock now e.event_type e.size m.pipeline_stats
  unfolding trigger_event
  trigger_event-stats now e m =
      if_either Same m.is_callback_registered _ _
        (if_either Same (is_end F clock e.event_type && contains m.event_flags stats_report) _ _
          given given)
        refl
    where
      updated : PipelineStats F clock
      updated = update_pipeline_stats F clock now e.event_type e.size m.pipeline_stats

      Same : EventManager F clock → Type 0
      Same m' = m'.pipeline_stats ≡ updated

      given : Same (
          if contains m.event_flags e.event_type
          then give F clock e (record m { pipeline_stats = updated })
          else record m { pipeline_stats = updated })
      given = if_either Same (contains m.event_flags e.event_type) _ _ refl refl

  trigger_all-stats :
      (es : List (clock.Instant × EventData F)) (m : EventManager F clock)
      → (trigger_all es m).pipeline_stats ≡ update_all es m.pipeline_stats
  trigger_all-stats [] m = refl
  trigger_all-stats ((now, e) ∷ es) m =
      trigger_all-stats es (trigger_event F clock now e m)
      ∙ ap (update_all es) (trigger_event-stats now e m)

  -- Whatever the callback subscribes to, the manager's statistics behind a list of events are those
  -- from before with, of each kind, the number of the events added and, of the deleted objects,
  -- the bytes, each modulo 2 ^ 64, if the counters were 64-bit numbers.
  pub trigger_all-Adds :
      (es : List (clock.Instant × EventData F)) (m : EventManager F clock)
      → IsU64 m.pipeline_stats
      → Adds (totals (events_of es)) m.pipeline_stats (trigger_all es m).pipeline_stats
  trigger_all-Adds es m h =
      subst (Adds (totals (events_of es)) m.pipeline_stats) (sym (trigger_all-stats es m))
        (update_all-Adds es m.pipeline_stats h)
