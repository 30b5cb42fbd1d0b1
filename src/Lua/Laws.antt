-- ===== src/Lua/Laws.antt =====
-- The timeout hook of the Lua callbacks of src/lua.
use s3rm_rs.Base.{
  ℕ, ◌≡◌, refl, Bool, false, String, Result, ok, err, and_then, and_then_rule, if_either, ◌==◌, M,
}
use s3rm_rs.Types.Object.{S3Object}
use s3rm_rs.Types.Event.{EventData}
use s3rm_rs.Types.Sdk.{Sdk}
use s3rm_rs.Lua.{
  Engine, FilterTable, reword, unhook, filter_by_lua, filter, call_on_event, with_function,
  with_table, on_event, table_of,
}

module _ (x : Sdk) (engine : Engine x) (hooked : engine.State → Bool) where
  abbrev Free : engine.State → Type 0
  Free s = hooked s ≡ false

  -- Only `set_global_hook` puts a hook into the engine, not even that if it fails, and
  -- `remove_global_hook` takes it out.
  pub record IsHookable : Type 0 where
    pub filter_table :
        (t : FilterTable) (s : engine.State) → Free s → Free (engine.filter_table t s).0
    pub event_table :
        (e : EventData x.F64) (s : engine.State) → Free s → Free (engine.event_table e s).0
    pub get : (name : String) (s : engine.State) → Free s → Free (engine.get name s).0
    pub not_set :
        (n : ℕ) (s : engine.State) (e : String)
        → Free s
        → (engine.set_global_hook n s).1 ≡ err e
        → Free (engine.set_global_hook n s).0
    pub removed : (s : engine.State) → Free (engine.remove_global_hook s)
    pub call_filter :
        (f : engine.Function) (t : engine.Table) (s : engine.State)
        → Free s
        → Free (engine.call_filter f t s).0
    pub call_event :
        (f : engine.Function) (t : engine.Table) (s : engine.State)
        → Free s
        → Free (engine.call_event f t s).0

  module _ (hookable : IsHookable) (timeout : ℕ) where
    installed_call :
        (func : engine.Function) (table : engine.Table)
        (m : engine.State × Result (Unit {0}) String)
        → ((e : String) → m.1 ≡ err e → Free m.0)
        → Free
            (and_then
              (reword x engine timeout m)
              (λ u s. unhook x engine timeout (engine.call_filter func table s))).0
    installed_call func table (s, ok u) not_set = hookable.removed _
    installed_call func table (s, err e) not_set = not_set e refl

    filter_by_lua-Free :
        (object : S3Object x.DateTime) (s : engine.State)
        → Free s
        → Free (filter_by_lua x engine timeout object s).0
    unfolding filter_by_lua
    filter_by_lua-Free object s h =
        and_then_rule Free Free (engine.filter_table (table_of x engine timeout object) s) _
          (hookable.filter_table _ s h)
          (λ table s h.
            and_then_rule Free Free (engine.get "filter" s) _ (hookable.get "filter" s h)
              (λ func s h.
                if_either (λ (m : M engine.State String Bool). Free (m s).0) (timeout == 0) _ _
                  (hookable.call_filter func table s h)
                  (installed_call func table (engine.set_global_hook timeout s)
                    (λ e. hookable.not_set timeout s e h)))
              (λ s h. h))
          (λ s h. h)

    call_on_event-Free :
        (func : engine.Function) (table : engine.Table) (s : engine.State)
        → Free s
        → Free (call_on_event x engine timeout func table s)
    unfolding call_on_event
    call_on_event-Free func table s h =
        if_either Free (timeout == 0) _ _ (hookable.call_event func table s h) (hookable.removed _)

    with_function-Free :
        (table : engine.Table) (m : engine.State × Result engine.Function String)
        → Free m.0
        → Free (with_function x engine timeout table m)
    with_function-Free table (s, ok func) h = call_on_event-Free func table s h
    with_function-Free table (s, err e) h = h

    with_table-Free :
        (m : engine.State × Result engine.Table String)
        → Free m.0
        → Free (with_table x engine timeout m)
    with_table-Free (s, ok table) h = with_function-Free table _ (hookable.get "on_event" s h)
    with_table-Free (s, err e) h = h

    -- The timeout hook of a Lua callback does not outlive the call: an engine without a hook is one
    -- without a hook behind each call of the filter and of the event callback, whatever fails.
    pub callbacks-Free :
        (object : S3Object x.DateTime) (event_data : EventData x.F64) (s : engine.State)
        → Free s
        → Free (filter x engine timeout object s).0 × Free (on_event x engine timeout event_data s)
    unfolding filter on_event
    callbacks-Free object event_data s h = (
      filter_by_lua-Free object s h,
      with_table-Free (engine.event_table event_data s) (hookable.event_table event_data s h),
    )
