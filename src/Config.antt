-- ===== src/Config.antt =====
-- `Config` and `FilterConfig` of src/config/mod.rs. A callback manager is kept as the answer of its
-- `is_callback_registered`.
pub mod Client
pub mod Defaults
use s3rm_rs.Base.{ℕ, Bool, Option, String}
use s3rm_rs.Config.Client.{ClientConfig}
use s3rm_rs.Types.Sdk.{Sdk}

-- `StoragePath::S3`
pub record StoragePath : Type 0 where
  pub bucket : String
  pub prefix : String

-- `log::Level`
pub data Level : Type 0 where
  error warn info debug trace : Level

pub record TracingConfig : Type 0 where
  pub tracing_level : Level
  pub json_tracing : Bool
  pub aws_sdk_tracing : Bool
  pub span_events_tracing : Bool
  pub disable_color_tracing : Bool

pub record ForceRetryConfig : Type 0 where
  pub force_retry_count : ℕ
  pub force_retry_interval_milliseconds : ℕ

module _ (x : Sdk) where
  pub record FilterConfig : Type 0 where
    pub before_time : Option x.Utc
    pub after_time : Option x.Utc
    pub include_regex : Option x.Regex
    pub exclude_regex : Option x.Regex
    pub include_content_type_regex : Option x.Regex
    pub exclude_content_type_regex : Option x.Regex
    pub include_metadata_regex : Option x.Regex
    pub exclude_metadata_regex : Option x.Regex
    pub include_tag_regex : Option x.Regex
    pub exclude_tag_regex : Option x.Regex
    pub larger_size : Option ℕ
    pub smaller_size : Option ℕ
    pub keep_latest_only : Bool
    pub delete_marker_only : Bool

  pub record Config : Type 0 where
    pub target : StoragePath
    pub show_no_progress : Bool
    pub target_client_config : Option ClientConfig
    pub force_retry_config : ForceRetryConfig
    pub tracing_config : Option TracingConfig
    pub worker_size : ℕ
    pub warn_as_error : Bool
    pub dry_run : Bool
    pub rate_limit_objects : Option ℕ
    pub max_parallel_listings : ℕ
    pub object_listing_queue_size : ℕ
    pub max_parallel_listing_max_depth : ℕ
    pub allow_parallel_listings_in_express_one_zone : Bool
    pub filter_config : FilterConfig
    pub max_keys : ℕ
    pub auto_complete_shell : Option x.Shell
    pub event_callback_lua_script : Option String
    pub filter_callback_lua_script : Option String
    pub allow_lua_os_library : Bool
    pub allow_lua_unsafe_vm : Bool
    pub lua_vm_memory_limit : ℕ
    pub lua_callback_timeout_milliseconds : ℕ
    pub if_match : Bool
    pub max_delete : Option ℕ
    pub filter_callback_registered : Bool
    pub event_callback_registered : Bool
    pub batch_size : ℕ
    pub delete_all_versions : Bool
    pub force : Bool
    pub test_user_defined_callback : Bool
