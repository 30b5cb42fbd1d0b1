-- ===== src/Tests/Scripts.antt =====
-- Runs of the Lua callbacks.
use s3rm_rs.Base.{ℕ, ◌≡◌, refl, Bool, true, false, ok, err, arith}
use s3rm_rs.Types.Event
use s3rm_rs.Types.Event.{EventData, delete_failed}
use s3rm_rs.Lua.{Engine, filter, on_event}
use s3rm_rs.Lua.Laws.{IsHookable, callbacks-Free}
use s3rm_rs.Tests.{sdk, object}

-- An engine that is its hook, and whose script fails at every call.
abbrev engine : Engine sdk
engine = record {
  State = Bool;
  Table = Unit {0};
  Function = Unit {0};
  to_string = λ t. "1970-01-01T00:00:00Z";
  filter_table = λ t s. (s, ok tt);
  event_table = λ e s. (s, ok tt);
  get = λ name s. (s, ok tt);
  set_global_hook = λ n s. (true, ok tt);
  remove_global_hook = λ s. false;
  call_filter = λ f t s. (s, err "runtime error");
  call_event = λ f t s. (s, err "runtime error");
}

abbrev hooked : Bool → Bool
hooked s = s

engine-IsHookable : IsHookable sdk engine hooked
engine-IsHookable = record {
  filter_table = λ t s h. h;
  event_table = λ e s h. h;
  get = λ name s h. h;
  not_set = λ n s e h failed. absurd (ground arith);
  removed = λ s. refl;
  call_filter = λ f t s h. h;
  call_event = λ f t s h. h;
}

abbrev event : EventData ℕ
event = Event.new delete_failed

callbacks-Free_example :
    (hooked (filter sdk engine 10_000 (object "a") false).0 ≡ false)
    × (hooked (on_event sdk engine 10_000 event false) ≡ false)
callbacks-Free_example =
    callbacks-Free sdk engine hooked engine-IsHookable 10_000 (object "a") event false refl
