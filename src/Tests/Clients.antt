-- ===== src/Tests/Clients.antt =====
-- Runs of the construction of a client.
use s3rm_rs.Base.{false, Option, none, some}
use s3rm_rs.Config.Client.{CliTimeoutConfig, ClientConfig, from_environment, when_required}
use s3rm_rs.Storage.ClientBuilder.{Timeouts, Aws}
use s3rm_rs.Storage.ClientBuilder.Laws.{no_timeouts}

-- A builder that is the configuration so far.
abbrev pub plain : Timeouts
plain = record {
  Builder = CliTimeoutConfig;
  TimeoutConfig = CliTimeoutConfig;
  builder = no_timeouts;
  operation_timeout = λ d b. record b { operation_timeout_milliseconds = some d };
  operation_attempt_timeout = λ d b. record b { operation_attempt_timeout_milliseconds = some d };
  connect_timeout = λ d b. record b { connect_timeout_milliseconds = some d };
  read_timeout = λ d b. record b { read_timeout_milliseconds = some d };
  build = λ b. b;
}

abbrev same : CliTimeoutConfig → CliTimeoutConfig
same c = c

abbrev hasty : CliTimeoutConfig
hasty = record no_timeouts {
  connect_timeout_milliseconds = some 50;
  read_timeout_milliseconds = some 0;
}

-- Builders that keep the timeouts and nothing else.
abbrev pub aws : Aws
aws = record {
  timeouts = plain;
  ConfigLoader = Unit;
  defaults = tt;
  stalled_stream_protection = λ b l. l;
  CredentialsProvider = Unit;
  credentials_provider = λ p l. l;
  static_credentials = λ k s t. tt;
  EnvConfigFiles = Unit;
  no_files = tt;
  with_config = λ p f. f;
  with_credentials = λ p f. f;
  profile_credentials = λ f p. tt;
  RegionProvider = Unit;
  profile_region = λ f p. tt;
  region_or_default = λ r. tt;
  region_or_else = λ r p. p;
  region = λ r l. l;
  RetryConfig = Unit;
  standard_retry = λ n b. tt;
  retry_config = λ r l. l;
  endpoint_url = λ u l. l;
  SdkConfig = Unit;
  load = λ l. l;
  Builder = Option CliTimeoutConfig;
  from_sdk_config = λ c. none;
  force_path_style = λ b c. c;
  request_checksum_calculation = λ r c. c;
  accelerate = λ b c. c;
  timeout_config = λ t c. some t;
  Client = Option CliTimeoutConfig;
  from_conf = λ c. c;
}

abbrev kept : Option CliTimeoutConfig → Option CliTimeoutConfig
kept o = o

abbrev hasty_client : ClientConfig
hasty_client = record {
  client_config_location = record { aws_config_file = none; aws_shared_credentials_file = none };
  credential = from_environment;
  region = none;
  endpoint_url = none;
  force_path_style = false;
  accelerate = false;
  request_payer = none;
  retry_config = record { aws_max_attempts = 10; initial_backoff_milliseconds = 100 };
  cli_timeout_config = hasty;
  disable_stalled_stream_protection = false;
  request_checksum_calculation = when_required;
}
