-- ===== src/Args.antt =====
-- `CLIArgs` of src/config/args/mod.rs: the arguments, as `clap` hands them over. The environment,
-- the help texts and `clap` itself are not modelled. A verbosity is the level it stands for.
pub mod Parsers
pub mod Client
pub mod Build
use s3rm_rs.Base.{ℕ, Bool, Option, String, Result}
use s3rm_rs.Types.Sdk.{Sdk}
use s3rm_rs.Config.{Level}

-- Why no configuration comes out: a panic, or a message for the user.
pub data Failure : Type 0 where
  panic refused : String → Failure

-- How a Lua engine is made: `LuaScriptCallbackEngine::unsafe_new`, `new`, `new_without_os_io_libs`.
pub data LuaMode : Type 0 where
  unsafe_vm all_libraries without_os_io_libs : LuaMode

module _ (x : Sdk) where
  -- The other crates: `byte_unit`, `fancy_regex`, `url`, and `mlua` with the file system.
  pub record Crates : Type 0 where
    -- `Byte::from_str`, in bytes
    pub byte_from_str : String → Result ℕ String
    -- `Regex::new`
    pub regex_new : String → Result x.Regex String
    -- `Url::parse`, of which only the scheme is read
    pub url_scheme : String → Result String String
    -- `exists` and `is_file`, with the text of the path
    pub is_file : String → Bool
    -- `std::fs::read` and `String::from_utf8`
    pub read_to_string : String → Result String String
    -- An engine with a limit of memory: `Lua::new`, `Lua::new_with` or `Lua::unsafe_new`, then
    -- `set_memory_limit`, with the text of a failure
    pub new_engine : LuaMode → ℕ → Result (Unit {0}) String
    -- `Lua::load(script).exec()` in such an engine: it fails with a text, or it panics
    pub exec : LuaMode → ℕ → String → Result (Unit {0}) Failure

  pub record CliArgs : Type 0 where
    pub target : String
    pub dry_run : Bool
    pub force : Bool
    pub show_no_progress : Bool
    pub delete_all_versions : Bool
    pub max_delete : Option ℕ
    pub keep_latest_only : Bool
    pub filter_delete_marker_only : Bool
    pub filter_include_regex : Option String
    pub filter_exclude_regex : Option String
    pub filter_include_content_type_regex : Option String
    pub filter_exclude_content_type_regex : Option String
    pub filter_include_metadata_regex : Option String
    pub filter_exclude_metadata_regex : Option String
    pub filter_include_tag_regex : Option String
    pub filter_exclude_tag_regex : Option String
    pub filter_mtime_before : Option x.Utc
    pub filter_mtime_after : Option x.Utc
    pub filter_smaller_size : Option String
    pub filter_larger_size : Option String
    pub verbosity : Option Level
    pub json_tracing : Bool
    pub aws_sdk_tracing : Bool
    pub span_events_tracing : Bool
    pub disable_color_tracing : Bool
    pub aws_config_file : Option String
    pub aws_shared_credentials_file : Option String
    pub target_profile : Option String
    pub target_access_key : Option String
    pub target_secret_access_key : Option String
    pub target_session_token : Option String
    pub target_region : Option String
    pub target_endpoint_url : Option String
    pub target_force_path_style : Bool
    pub target_accelerate : Bool
    pub target_request_payer : Bool
    pub disable_stalled_stream_protection : Bool
    pub worker_size : ℕ
    pub batch_size : ℕ
    pub max_parallel_listings : ℕ
    pub max_parallel_listing_max_depth : ℕ
    pub rate_limit_objects : Option ℕ
    pub object_listing_queue_size : ℕ
    pub allow_parallel_listings_in_express_one_zone : Bool
    pub aws_max_attempts : ℕ
    pub initial_backoff_milliseconds : ℕ
    pub force_retry_count : ℕ
    pub force_retry_interval_milliseconds : ℕ
    pub operation_timeout_milliseconds : Option ℕ
    pub operation_attempt_timeout_milliseconds : Option ℕ
    pub connect_timeout_milliseconds : Option ℕ
    pub read_timeout_milliseconds : Option ℕ
    pub filter_callback_lua_script : Option String
    pub event_callback_lua_script : Option String
    pub allow_lua_os_library : Bool
    pub lua_vm_memory_limit : String
    pub lua_callback_timeout : ℕ
    pub if_match : Bool
    pub warn_as_error : Bool
    pub max_keys : ℕ
    pub auto_complete_shell : Option x.Shell
    pub allow_lua_unsafe_vm : Bool
