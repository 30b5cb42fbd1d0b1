-- ===== src/Tests/Arguments.antt =====
-- Runs of the command line.
use s3rm_rs.Base.{ℕ, String, ◌≡◌, ◌⊎◌, refl, true, false, none, some, ok, err, [], arith}
use s3rm_rs.Config.{Config, warn}
use s3rm_rs.Args.{Crates, CliArgs, without_os_io_libs, panic}
use s3rm_rs.Args.Parsers.{IsAccepted, check_s3_target, check_human_bytes, parse_regex}
use s3rm_rs.Args.Build.{try_from, parse_target}
use s3rm_rs.Args.Build.Laws.{IsSound, try_from-IsSound, try_from_panics}
use s3rm_rs.Args.Build.Targets.{path_of_target, target_of, parse_target-parse, try_from_succeeds}
use s3rm_rs.Args.Build.Checks.{check_options-try_from}
use s3rm_rs.Types.Target.{S3Target, parse}
use s3rm_rs.Pipeline
use s3rm_rs.Pipeline.Prerequisites.{check_options}
use s3rm_rs.Tests.{sdk, bucket, config}

abbrev pub crates : Crates sdk
crates = record {
  byte_from_str = λ s. ok 1024;
  regex_new = λ s. ok s;
  url_scheme = λ s. ok "https";
  is_file = λ s. true;
  read_to_string = λ s. ok s;
  new_engine = λ mode limit. ok tt;
  exec = λ mode limit script. ok tt;
}

abbrev pub args : CliArgs sdk
args = record {
  target = "s3://b/p";
  dry_run = false;
  force = true;
  show_no_progress = false;
  delete_all_versions = true;
  max_delete = none;
  keep_latest_only = true;
  filter_delete_marker_only = false;
  filter_include_regex = some "a";
  filter_exclude_regex = none;
  filter_include_content_type_regex = none;
  filter_exclude_content_type_regex = none;
  filter_include_metadata_regex = none;
  filter_exclude_metadata_regex = none;
  filter_include_tag_regex = none;
  filter_exclude_tag_regex = none;
  filter_mtime_before = none;
  filter_mtime_after = none;
  filter_smaller_size = some "1KiB";
  filter_larger_size = none;
  verbosity = some warn;
  json_tracing = false;
  aws_sdk_tracing = false;
  span_events_tracing = false;
  disable_color_tracing = false;
  aws_config_file = none;
  aws_shared_credentials_file = none;
  target_profile = none;
  target_access_key = none;
  target_secret_access_key = none;
  target_session_token = none;
  target_region = none;
  target_endpoint_url = none;
  target_force_path_style = false;
  target_accelerate = false;
  target_request_payer = false;
  disable_stalled_stream_protection = false;
  worker_size = 16;
  batch_size = 200;
  max_parallel_listings = 16;
  max_parallel_listing_max_depth = 2;
  rate_limit_objects = some 300;
  object_listing_queue_size = 200_000;
  allow_parallel_listings_in_express_one_zone = false;
  aws_max_attempts = 10;
  initial_backoff_milliseconds = 100;
  force_retry_count = 0;
  force_retry_interval_milliseconds = 1000;
  operation_timeout_milliseconds = none;
  operation_attempt_timeout_milliseconds = none;
  connect_timeout_milliseconds = none;
  read_timeout_milliseconds = none;
  filter_callback_lua_script = none;
  event_callback_lua_script = none;
  allow_lua_os_library = false;
  lua_vm_memory_limit = "64MiB";
  lua_callback_timeout = 10_000;
  if_match = false;
  warn_as_error = false;
  max_keys = 1000;
  auto_complete_shell = none;
  allow_lua_unsafe_vm = false;
}

pub accepted : IsAccepted sdk crates args
unfolding check_s3_target check_human_bytes parse_regex
accepted = record {
  target = refl;
  confirmed = λ h. absurd (ground arith);
  include = refl;
  exclude = tt;
  include_content_type = tt;
  exclude_content_type = tt;
  include_metadata = tt;
  exclude_metadata = tt;
  include_tag = tt;
  exclude_tag = tt;
  smaller = refl;
  larger = tt;
  endpoint_url = tt;
  worker_size = omega arith;
  batch_size = (omega arith, omega arith);
  rate_limit_objects = omega arith;
  memory_limit = refl;
  keep_latest_only = λ h. refl;
  delete_marker_only = λ h. refl;
  if_match = λ h. absurd (ground arith);
}

abbrev plain_target : S3Target
plain_target = record { bucket = "b"; prefix = some "p"; endpoint = none; region = none }

named : parse args.target ≡ ok plain_target
unfolding parse
named = refl

built :
    (config : Config sdk) × (try_from sdk crates args ≡ ok config)
    × (config.target ≡ target_of plain_target)
built = try_from_succeeds sdk crates args plain_target accepted named (omega arith) refl refl

try_from_succeeds_example :
    (config : Config sdk) × (try_from sdk crates args ≡ ok config)
    × (config.target ≡ target_of plain_target)
try_from_succeeds_example =
    try_from_succeeds sdk crates args plain_target accepted named (omega arith) refl refl

try_from-IsSound_example : IsSound sdk crates args built.0
try_from-IsSound_example = try_from-IsSound sdk crates args built.0 accepted built.1

-- A system where no engine can be made, and arguments with a script.
abbrev no_lua : Crates sdk
no_lua = record crates { new_engine = λ mode limit. err "failed to set Lua memory limit" }

abbrev scripted : CliArgs sdk
scripted = record args { filter_callback_lua_script = some "filter.lua" }

scripted-IsAccepted : IsAccepted sdk no_lua scripted
unfolding check_s3_target check_human_bytes parse_regex
scripted-IsAccepted = record {
  target = refl;
  confirmed = λ h. absurd (ground arith);
  include = refl;
  exclude = tt;
  include_content_type = tt;
  exclude_content_type = tt;
  include_metadata = tt;
  exclude_metadata = tt;
  include_tag = tt;
  exclude_tag = tt;
  smaller = refl;
  larger = tt;
  endpoint_url = tt;
  worker_size = omega arith;
  batch_size = (omega arith, omega arith);
  rate_limit_objects = omega arith;
  memory_limit = refl;
  keep_latest_only = λ h. refl;
  delete_marker_only = λ h. refl;
  if_match = λ h. absurd (ground arith);
}

panicked : try_from sdk no_lua scripted ≡ err (panic "failed to set Lua memory limit")
unfolding try_from
panicked = refl

try_from_panics_example :
    (limit : ℕ) × ((no_lua.new_engine without_os_io_libs limit
        ≡ err "failed to set Lua memory limit")
      ⊎ ((path script : String) × (no_lua.read_to_string path ≡ ok script)
          × (no_lua.exec without_os_io_libs limit script
              ≡ err (panic "failed to set Lua memory limit"))))
try_from_panics_example =
    try_from_panics sdk no_lua scripted "failed to set Lua memory limit" scripted-IsAccepted
      panicked

check_options-try_from_example :
    check_options sdk bucket built.0 (Pipeline.new sdk bucket config [])
    ≡ (Pipeline.new sdk bucket config [], ok tt)
check_options-try_from_example =
    check_options-try_from sdk crates bucket args built.0 (Pipeline.new sdk bucket config [])
      accepted built.1

parse_target-parse_example : parse_target "s3://b/p" ≡ path_of_target (parse "s3://b/p")
parse_target-parse_example = parse_target-parse "s3://b/p" accepted.target
