-- ===== src/Config/Defaults.antt =====
-- `Config::default` and `Config::for_target` of src/config/mod.rs.
use s3rm_rs.Base.{true, false, none, String, ◌*◌}
use s3rm_rs.Types.Sdk.{Sdk}
use s3rm_rs.Config.{Config, FilterConfig, ForceRetryConfig}

-- `ForceRetryConfig::default`
unfoldable pub force_retry_default : ForceRetryConfig
force_retry_default = record { force_retry_count = 0; force_retry_interval_milliseconds = 1000 }

module _ (x : Sdk) where
  -- The derived `FilterConfig::default`.
  unfoldable pub filter_default : FilterConfig x
  filter_default = record {
    before_time = none;
    after_time = none;
    include_regex = none;
    exclude_regex = none;
    include_content_type_regex = none;
    exclude_content_type_regex = none;
    include_metadata_regex = none;
    exclude_metadata_regex = none;
    include_tag_regex = none;
    exclude_tag_regex = none;
    larger_size = none;
    smaller_size = none;
    keep_latest_only = false;
    delete_marker_only = false;
  }

  unfoldable pub default : Config x
  unfolding filter_default force_retry_default
  default = record {
    target = record { bucket = ""; prefix = "" };
    show_no_progress = false;
    target_client_config = none;
    force_retry_config = force_retry_default;
    tracing_config = none;
    worker_size = 16;
    warn_as_error = false;
    dry_run = false;
    rate_limit_objects = none;
    max_parallel_listings = 16;
    object_listing_queue_size = 200_000;
    max_parallel_listing_max_depth = 2;
    allow_parallel_listings_in_express_one_zone = false;
    filter_config = filter_default;
    max_keys = 1000;
    auto_complete_shell = none;
    event_callback_lua_script = none;
    filter_callback_lua_script = none;
    allow_lua_os_library = false;
    allow_lua_unsafe_vm = false;
    lua_vm_memory_limit = 64 * 1024 * 1024;
    lua_callback_timeout_milliseconds = 10_000;
    if_match = false;
    max_delete = none;
    filter_callback_registered = false;
    event_callback_registered = false;
    batch_size = 200;
    delete_all_versions = false;
    force = false;
    test_user_defined_callback = false;
  }

  unfoldable pub for_target : String → String → Config x
  unfolding default
  for_target bucket prefix = record default {
    target = record { bucket = bucket; prefix = prefix };
    force = true;
  }
