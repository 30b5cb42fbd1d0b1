-- ===== src/Lua.antt =====
-- The Lua callbacks: src/lua/filter.rs and src/lua/event.rs. The engine of `mlua` is a parameter, in
-- a state of its own; the logging is left out.
pub mod Laws
use s3rm_rs.Base.{
  ℕ, Bool, true, false, Option, none, some, String, ◌<>◌, Result, ok, err, M, ◌>>=◌, ◌>>◌, return,
  fail, modify, if◌then◌else◌, ◌==◌,
}
use s3rm_rs.Base.Int.{ℤ}
use s3rm_rs.Types.Object
use s3rm_rs.Types.Object.{S3Object}
use s3rm_rs.Types.Event.{EventData}
use s3rm_rs.Types.Sdk.{Sdk}

-- The fields of the table that the script's `filter` gets.
pub record FilterTable : Type 0 where
  pub key : String
  pub last_modified : String
  pub version_id : Option String
  pub e_tag : Option String
  pub is_latest : Bool
  pub is_delete_marker : Bool
  pub size : ℤ

module _ (x : Sdk) where
  -- The engine with the loaded script. An error is its text. An event's table may lack fields that
  -- could not be set.
  pub record Engine : Type 1 where
    pub State : Type 0
    pub Table : Type 0
    pub Function : Type 0
    -- `to_string` of a time
    pub to_string : x.DateTime → String
    -- `create_table` and the `set`s of the fields
    pub filter_table : FilterTable → M State String Table
    pub event_table : EventData x.F64 → M State String Table
    -- `globals().get(name)`
    pub get : String → M State String Function
    pub set_global_hook : ℕ → M State String (Unit {0})
    pub remove_global_hook : State → State
    pub call_filter : Function → Table → M State String Bool
    pub call_event : Function → Table → M State String (Unit {0})

  module _ (engine : Engine) (callback_timeout : ℕ) where
    abbrev Run : Type 0 → Type 0
    Run A = M engine.State String A

    unfoldable pub table_of : S3Object x.DateTime → FilterTable
    unfolding Object.key Object.last_modified Object.version_id Object.e_tag Object.is_latest
        Object.is_delete_marker Object.size
    table_of object = record {
      key = Object.key object;
      last_modified = engine.to_string (Object.last_modified object);
      version_id = Object.version_id object;
      e_tag = Object.e_tag object;
      is_latest = Object.is_latest object;
      is_delete_marker = Object.is_delete_marker object;
      size = Object.size object;
    }

    -- `map_err(|e| anyhow!("Failed to install ..: {}", e))`
    abbrev pub reword :
        engine.State × Result (Unit {0}) String → engine.State × Result (Unit {0}) String
    reword (s, ok u) = (s, ok u)
    reword (s, err e) = (s, err ("Failed to install Lua timeout hook for filter callback: " <> e))

    -- A call under the hook, which is removed whatever the call answers.
    abbrev pub unhook :
        {A : Type 0} → engine.State × Result A String → engine.State × Result A String
    unhook (s, r) = (engine.remove_global_hook s, r)

    -- `filter_by_lua`
    unfoldable pub filter_by_lua : S3Object x.DateTime → Run Bool
    unfolding table_of
    filter_by_lua object = do
      table ← engine.filter_table (table_of object)
      func ← engine.get "filter"
      if callback_timeout == 0 then engine.call_filter func table else (do
        λ s. reword (engine.set_global_hook callback_timeout s)
        λ s. unhook (engine.call_filter func table s))

    -- `filter`: the error is logged, and returned.
    unfoldable pub filter : S3Object x.DateTime → Run Bool
    unfolding filter_by_lua
    filter object = filter_by_lua object

    -- A result that is only warned of.
    abbrev pub ignore : {A : Type 0} → engine.State × Result A String → engine.State
    ignore (s, r) = s

    -- The call of the script's function, with a timeout if there is one and its hook is there.
    unfoldable pub call_on_event : engine.Function → engine.Table → engine.State → engine.State
    call_on_event func table s =
        if callback_timeout == 0
        then ignore (engine.call_event func table s)
        else engine.remove_global_hook (
            ignore
              (engine.call_event func table (ignore (engine.set_global_hook callback_timeout s))))

    abbrev pub with_function :
        engine.Table → engine.State × Result engine.Function String → engine.State
    with_function table (s, ok func) = call_on_event func table s
    with_function table (s, err e) = s

    abbrev pub with_table : engine.State × Result engine.Table String → engine.State
    with_table (s, ok table) = with_function table (engine.get "on_event" s)
    with_table (s, err e) = s

    -- `on_event`
    unfoldable pub on_event : EventData x.F64 → engine.State → engine.State
    unfolding call_on_event
    on_event event_data s = with_table (engine.event_table event_data s)
