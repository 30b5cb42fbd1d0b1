-- ===== src/Args/Build.antt =====
-- The conversion of `CLIArgs` into `Config` in src/config/args/mod.rs, with the `lua_support`
-- feature, which is on by default. The warning on an overridden batch size is left out.
pub mod Inputs
pub mod Laws
pub mod Targets
pub mod Checks
use s3rm_rs.Base.{
  ℕ, zero, suc, Bool, true, false, not, ◌&&◌, Option, none, some, is_some, unwrap_or, String, ◌<>◌,
  Result, ok, err, try, ltb, str_eq, if◌then◌else◌,
}
use s3rm_rs.Types.Error.{digits}
use s3rm_rs.Types.Sdk.{Sdk}
use s3rm_rs.Types.Target.{split_slash, is_empty, ends_with}
use s3rm_rs.Config.{Config, FilterConfig, TracingConfig, StoragePath, Level, warn, info}
use s3rm_rs.Config.Client.{
  ClientConfig, S3Credentials, profile, credentials, from_environment, requester, when_required,
}
use s3rm_rs.Args.{
  Crates, CliArgs, Failure, panic, refused, LuaMode, unsafe_vm, all_libraries, without_os_io_libs,
}
use s3rm_rs.Args.Parsers.{error_message_invalid_target, parse_human_bytes}
use s3rm_rs.Args.Client.{build_client_config, build_tracing_config}

abbrev pub Answer : Type 0 → Type 0
Answer A = Result A Failure

infixl 5 ◌>>=◌
abbrev ◌>>=◌ : {A B : Type 0} → Answer A → (A → Answer B) → Answer B
r >>= f = try r f

-- `map_err(|e| format!(..))`
abbrev refuse_with : {A : Type 0} → String → Result A String → Answer A
refuse_with text (ok a) = ok a
refuse_with text (err e) = err (refused (text <> e))

-- The same, for what may panic.
abbrev pub reword : {A : Type 0} → String → Answer A → Answer A
reword text (ok a) = ok a
reword text (err (refused e)) = err (refused (text <> e))
reword text (err (panic m)) = err (panic m)

-- `.map(f).transpose()`
abbrev transpose : {A B : Type 0} → (A → Result B String) → Option A → Result (Option B) String
transpose f none = ok none
transpose f (some a) = try (f a) (λ b. ok (some b))

-- `&s[n..]`, which panics behind the end. It counts characters: an accepted target has a scheme of
-- five bytes.
unfoldable pub slice_from : ℕ → String → Answer String
slice_from zero s = ok s
slice_from (suc n) String.[] = err (panic "byte index out of bounds")
slice_from (suc n) (String.◌∷◌ c s) = slice_from n s

abbrev split : Option (String × String) → String → String × String
split (some halves) s = halves
split none s = (s, "")

-- What `parse_target` does behind the scheme.
unfoldable pub path_of : String → Answer StoragePath
unfolding split_slash is_empty
path_of without_scheme =
    let halves = split (split_slash without_scheme) without_scheme in
    if is_empty halves.0
    then err (refused error_message_invalid_target)
    else ok (record { bucket = halves.0; prefix = halves.1 })

unfoldable pub parse_target : String → Answer StoragePath
unfolding slice_from path_of
parse_target uri = slice_from 5 uri >>= path_of

-- `is_express_onezone_storage`
unfoldable pub is_express_onezone_storage : String → Bool
unfolding ends_with
is_express_onezone_storage bucket = ends_with bucket "--x-s3"

-- The engine that `LuaFilterCallback::new` and `LuaEventCallback::new` make.
unfoldable pub engine_mode : Bool → Bool → LuaMode
engine_mode allow_lua_os_library unsafe_lua =
    if unsafe_lua
    then unsafe_vm
    else if allow_lua_os_library
    then all_libraries
    else without_os_io_libs

abbrev below : Option ℕ → ℕ → Bool
below none batch_size = false
below (some rate_limit) batch_size = ltb rate_limit batch_size

module _ (x : Sdk) where
  -- The batch size of the configuration: 1 for Express One Zone unless it may list in parallel.
  unfoldable pub effective_batch_size : CliArgs x → StoragePath → ℕ
  unfolding is_express_onezone_storage
  effective_batch_size args target =
      if is_express_onezone_storage target.bucket
        && not args.allow_parallel_listings_in_express_one_zone
      then 1
      else args.batch_size

  abbrev check_rate_limit : CliArgs x → ℕ → Answer (Unit {0})
  check_rate_limit args batch_size =
      if below args.rate_limit_objects batch_size
      then err (
          refused (
            "--rate-limit-objects ("
            <> (digits (unwrap_or args.rate_limit_objects 0)
                <> (") must be greater than or equal to --batch-size ("
                    <> (digits batch_size <> ").")))))
      else ok tt

  -- The literal at the end of `try_from`.
  unfoldable pub config_of : CliArgs x → StoragePath → FilterConfig x → ℕ → Bool → Bool → Config x
  unfolding build_client_config build_tracing_config effective_batch_size
  config_of args target filter_config lua_vm_memory_limit filter_registered event_registered =
      record {
        target = target;
        show_no_progress = args.show_no_progress;
        target_client_config = build_client_config x args;
        force_retry_config = record {
          force_retry_count = args.force_retry_count;
          force_retry_interval_milliseconds = args.force_retry_interval_milliseconds;
        };
        tracing_config = build_tracing_config x args args.dry_run;
        worker_size = args.worker_size;
        warn_as_error = args.warn_as_error;
        dry_run = args.dry_run;
        rate_limit_objects = args.rate_limit_objects;
        max_parallel_listings = args.max_parallel_listings;
        object_listing_queue_size = args.object_listing_queue_size;
        max_parallel_listing_max_depth = args.max_parallel_listing_max_depth;
        allow_parallel_listings_in_express_one_zone =
            args.allow_parallel_listings_in_express_one_zone;
        filter_config = filter_config;
        max_keys = args.max_keys;
        auto_complete_shell = args.auto_complete_shell;
        event_callback_lua_script = args.event_callback_lua_script;
        filter_callback_lua_script = args.filter_callback_lua_script;
        allow_lua_os_library = args.allow_lua_os_library;
        allow_lua_unsafe_vm = args.allow_lua_unsafe_vm;
        lua_vm_memory_limit = lua_vm_memory_limit;
        lua_callback_timeout_milliseconds = args.lua_callback_timeout;
        if_match = args.if_match;
        max_delete = args.max_delete;
        filter_callback_registered = filter_registered;
        event_callback_registered = event_registered;
        batch_size = effective_batch_size args target;
        delete_all_versions = args.delete_all_versions;
        force = args.force;
        test_user_defined_callback = false;
      }

  module _ (crates : Crates x) where
    abbrev pub compile_regex : Option String → Answer (Option x.Regex)
    compile_regex none = ok none
    compile_regex (some pattern) = elim (crates.regex_new pattern) [
      | ok regex ↦ ok (some regex)
      | err e ↦ err (panic "regex was already validated by value_parser")
    ]

    unfoldable pub build_filter_config : CliArgs x → Answer (FilterConfig x)
    unfolding parse_human_bytes
    build_filter_config args = do
      larger_size ←
          refuse_with "Invalid filter-larger-size: "
            (transpose (parse_human_bytes x crates) args.filter_larger_size)
      smaller_size ←
          refuse_with "Invalid filter-smaller-size: "
            (transpose (parse_human_bytes x crates) args.filter_smaller_size)
      include_regex ← compile_regex args.filter_include_regex
      exclude_regex ← compile_regex args.filter_exclude_regex
      include_content_type_regex ← compile_regex args.filter_include_content_type_regex
      exclude_content_type_regex ← compile_regex args.filter_exclude_content_type_regex
      include_metadata_regex ← compile_regex args.filter_include_metadata_regex
      exclude_metadata_regex ← compile_regex args.filter_exclude_metadata_regex
      include_tag_regex ← compile_regex args.filter_include_tag_regex
      exclude_tag_regex ← compile_regex args.filter_exclude_tag_regex
      ok (record {
        before_time = args.filter_mtime_before;
        after_time = args.filter_mtime_after;
        include_regex = include_regex;
        exclude_regex = exclude_regex;
        include_content_type_regex = include_content_type_regex;
        exclude_content_type_regex = exclude_content_type_regex;
        include_metadata_regex = include_metadata_regex;
        exclude_metadata_regex = exclude_metadata_regex;
        include_tag_regex = include_tag_regex;
        exclude_tag_regex = exclude_tag_regex;
        larger_size = larger_size;
        smaller_size = smaller_size;
        keep_latest_only = args.keep_latest_only;
        delete_marker_only = args.filter_delete_marker_only;
      })

    -- `load_and_compile` of src/lua/filter.rs and src/lua/event.rs, with that of src/lua/engine.rs.
    unfoldable pub load_and_compile : LuaMode → ℕ → String → Answer (Unit {0})
    load_and_compile mode memory_limit script_path = do
      script ← refuse_with "" (crates.read_to_string script_path)
      reword "Failed to load and compile Lua script: " (crates.exec mode memory_limit script)

    -- `LuaScriptCallbackEngine::new`, `new_without_os_io_libs` and `unsafe_new` of src/lua/engine.rs,
    -- which expect an engine.
    unfoldable pub new_engine : LuaMode → ℕ → Answer (Unit {0})
    new_engine mode memory_limit = elim (crates.new_engine mode memory_limit) [
      | ok u ↦ ok tt
      | err e ↦ err (panic e)
    ]

    -- Whether a callback is registered, from the path of its script.
    unfoldable pub register : String → CliArgs x → ℕ → Option String → Answer Bool
    unfolding load_and_compile engine_mode new_engine
    register text args memory_limit none = ok false
    register text args memory_limit (some script_path) = do
      let mode = engine_mode args.allow_lua_os_library args.allow_lua_unsafe_vm
      engine ← new_engine mode memory_limit
      u ← reword text (load_and_compile mode memory_limit script_path)
      ok true

    -- The end of `try_from`, which makes the two callback managers.
    unfoldable pub register_callbacks :
        CliArgs x → StoragePath → FilterConfig x → ℕ → Answer (Config x)
    unfolding config_of register
    register_callbacks args target filter_config lua_vm_memory_limit = do
      filter_registered ←
          register "Failed to load filter Lua script: " args lua_vm_memory_limit
            args.filter_callback_lua_script
      event_registered ←
          register "Failed to load event Lua script: " args lua_vm_memory_limit
            args.event_callback_lua_script
      ok (
          config_of args target filter_config lua_vm_memory_limit filter_registered
            event_registered)

    -- `Config::try_from`. A `usize` has 64 bits.
    unfoldable pub try_from : CliArgs x → Answer (Config x)
    unfolding parse_target build_filter_config effective_batch_size parse_human_bytes
        register_callbacks
    try_from args = do
      target ← parse_target args.target
      filter_config ← build_filter_config args
      u ← check_rate_limit args (effective_batch_size args target)
      lua_vm_memory_limit ←
          refuse_with "Invalid lua-vm-memory-limit: "
            (parse_human_bytes x crates args.lua_vm_memory_limit)
      register_callbacks args target filter_config lua_vm_memory_limit
