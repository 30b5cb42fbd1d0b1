-- ===== src/Args/Client.antt =====
-- `build_client_config` and `build_tracing_config` of src/config/args/mod.rs.
use s3rm_rs.Base.{Bool, Option, none, some, unwrap_or, String, if◌then◌else◌}
use s3rm_rs.Types.Sdk.{Sdk}
use s3rm_rs.Config.{TracingConfig, Level, warn, info}
use s3rm_rs.Config.Client.{
  ClientConfig, S3Credentials, profile, credentials, from_environment, requester, when_required,
}
use s3rm_rs.Args.{CliArgs}

abbrev boosted : TracingConfig → TracingConfig
boosted config = elim config.tracing_level [
  | warn ↦ record config { tracing_level = info }
  | _ ↦ config
]

abbrev boost : Bool → Option TracingConfig → Option TracingConfig
boost dry_run none = none
boost dry_run (some config) = some (if dry_run then boosted config else config)

abbrev credential_of : Option String → Option String → Option String → Option String → S3Credentials
credential_of (some name) access_key secret token = profile name
credential_of none (some key) secret token =
    credentials
      (record { access_key = key; secret_access_key = unwrap_or secret ""; session_token = token })
credential_of none none secret token = from_environment

module _ (x : Sdk) where
  unfoldable pub build_client_config : CliArgs x → Option ClientConfig
  build_client_config args = some (record {
    client_config_location = record {
      aws_config_file = args.aws_config_file;
      aws_shared_credentials_file = args.aws_shared_credentials_file;
    };
    credential =
        credential_of args.target_profile args.target_access_key args.target_secret_access_key
          args.target_session_token;
    region = args.target_region;
    endpoint_url = args.target_endpoint_url;
    force_path_style = args.target_force_path_style;
    accelerate = args.target_accelerate;
    request_payer = if args.target_request_payer then some requester else none;
    retry_config = record {
      aws_max_attempts = args.aws_max_attempts;
      initial_backoff_milliseconds = args.initial_backoff_milliseconds;
    };
    cli_timeout_config = record {
      operation_timeout_milliseconds = args.operation_timeout_milliseconds;
      operation_attempt_timeout_milliseconds = args.operation_attempt_timeout_milliseconds;
      connect_timeout_milliseconds = args.connect_timeout_milliseconds;
      read_timeout_milliseconds = args.read_timeout_milliseconds;
    };
    disable_stalled_stream_protection = args.disable_stalled_stream_protection;
    request_checksum_calculation = when_required;
  })

  abbrev traced : CliArgs x → Level → TracingConfig
  traced args level = record {
    tracing_level = level;
    json_tracing = args.json_tracing;
    aws_sdk_tracing = args.aws_sdk_tracing;
    span_events_tracing = args.span_events_tracing;
    disable_color_tracing = args.disable_color_tracing;
  }

  abbrev tracing_of : CliArgs x → Option Level → Option TracingConfig
  tracing_of args none = none
  tracing_of args (some level) = some (traced args level)

  unfoldable pub build_tracing_config : CliArgs x → Bool → Option TracingConfig
  build_tracing_config args dry_run = boost dry_run (tracing_of args args.verbosity)
