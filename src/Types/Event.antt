-- ===== src/Types/Event.antt =====
-- `EventType` and `EventData` of src/types/event_callback.rs. `F` is `f64`.
use Prim.Native.Nat.{bit_and}
use s3rm_rs.Base.{ℕ, ◌^◌, ◌-◌, Bool, false, Option, none, String, ◌==◌}

-- The flags that an event carries; `UNDEFINED` has no bit.
pub data EventType : Type 0 where
  undefined pipeline_start pipeline_end delete_complete delete_failed delete_filtered : EventType
  pipeline_error delete_cancel stats_report : EventType

unfoldable pub bits : EventType → ℕ
bits undefined = 0
bits pipeline_start = 2 ^ 1
bits pipeline_end = 2 ^ 2
bits delete_complete = 2 ^ 3
bits delete_failed = 2 ^ 4
bits delete_filtered = 2 ^ 5
bits pipeline_error = 2 ^ 6
bits delete_cancel = 2 ^ 7
bits stats_report = 2 ^ 8

-- `ALL_EVENTS`, `!0` of a `u64`
abbrev pub all_events : ℕ
all_events = 2 ^ 64 - 1

-- `flags.contains(event)`
unfoldable pub contains : ℕ → EventType → Bool
unfolding bits
contains flags event = bit_and flags (bits event) == bits event

module _ (F : Type 0) where
  pub record EventData : Type 0 where
    pub event_type : EventType
    pub dry_run : Bool
    pub key : Option String
    pub version_id : Option String
    pub size : Option ℕ
    pub last_modified : Option String
    pub e_tag : Option String
    pub error_message : Option String
    pub message : Option String
    pub stats_deleted_objects : Option ℕ
    pub stats_deleted_bytes : Option ℕ
    pub stats_failed_objects : Option ℕ
    pub stats_skipped_objects : Option ℕ
    pub stats_error_count : Option ℕ
    pub stats_duration_sec : Option F
    pub stats_objects_per_sec : Option F

-- `EventData::new`
abbrev pub new : {F : Type 0} → EventType → EventData F
new event_type = record {
  event_type = event_type;
  dry_run = false;
  key = none;
  version_id = none;
  size = none;
  last_modified = none;
  e_tag = none;
  error_message = none;
  message = none;
  stats_deleted_objects = none;
  stats_deleted_bytes = none;
  stats_failed_objects = none;
  stats_skipped_objects = none;
  stats_error_count = none;
  stats_duration_sec = none;
  stats_objects_per_sec = none;
}
