-- ===== src/Storage/ClientBuilder.antt =====
-- The construction of the SDK's client in src/storage/s3/client_builder.rs. The builders of
-- `aws_config`, `aws_smithy_types` and `aws_sdk_s3` are parameters.
pub mod Laws
use s3rm_rs.Base.{
  ℕ, Bool, true, false, not, ◌&&◌, ◌||◌, Option, none, some, is_some, String, if◌then◌else◌,
}
use s3rm_rs.Config.Client.{
  ClientConfig, CliTimeoutConfig, S3Credentials, AccessKeys, RequestChecksumCalculation, profile,
  credentials, from_environment, ClientConfigLocation,
}

-- `TimeoutConfig` and its builder; a duration is in milliseconds.
pub record Timeouts : Type 1 where
  pub Builder : Type 0
  pub TimeoutConfig : Type 0
  pub builder : Builder
  pub operation_timeout : ℕ → Builder → Builder
  pub operation_attempt_timeout : ℕ → Builder → Builder
  pub connect_timeout : ℕ → Builder → Builder
  pub read_timeout : ℕ → Builder → Builder
  pub build : Builder → TimeoutConfig

-- The builders of the loader, of the client and of what they take.
pub record Aws : Type 1 where
  pub timeouts : Timeouts
  -- `aws_config::defaults(BehaviorVersion::latest())`
  pub ConfigLoader : Type 0
  pub defaults : ConfigLoader
  pub stalled_stream_protection : Bool → ConfigLoader → ConfigLoader
  pub CredentialsProvider : Type 0
  pub credentials_provider : CredentialsProvider → ConfigLoader → ConfigLoader
  -- `Credentials::new`, with no expiry and no name
  pub static_credentials : String → String → Option String → CredentialsProvider
  -- `EnvConfigFiles`
  pub EnvConfigFiles : Type 0
  pub no_files : EnvConfigFiles
  pub with_config : String → EnvConfigFiles → EnvConfigFiles
  pub with_credentials : String → EnvConfigFiles → EnvConfigFiles
  -- `ProfileFileCredentialsProvider`, of some files or the usual ones
  pub profile_credentials : Option EnvConfigFiles → String → CredentialsProvider
  pub RegionProvider : Type 0
  -- `ProfileFileRegionProvider`, of some files, and of a profile or the usual one
  pub profile_region : Option EnvConfigFiles → Option String → RegionProvider
  -- `RegionProviderChain::first_try(..).or_default_provider()` and `.or_else(..)`
  pub region_or_default : Option String → RegionProvider
  pub region_or_else : Option String → RegionProvider → RegionProvider
  pub region : RegionProvider → ConfigLoader → ConfigLoader
  -- `RetryConfig::standard()` with its attempts and its first backoff
  pub RetryConfig : Type 0
  pub standard_retry : ℕ → ℕ → RetryConfig
  pub retry_config : RetryConfig → ConfigLoader → ConfigLoader
  pub endpoint_url : String → ConfigLoader → ConfigLoader
  pub SdkConfig : Type 0
  pub load : ConfigLoader → SdkConfig
  -- `aws_sdk_s3::config::Builder`
  pub Builder : Type 0
  pub from_sdk_config : SdkConfig → Builder
  pub force_path_style : Bool → Builder → Builder
  pub request_checksum_calculation : RequestChecksumCalculation → Builder → Builder
  pub accelerate : Bool → Builder → Builder
  pub timeout_config : timeouts.TimeoutConfig → Builder → Builder
  pub Client : Type 0
  pub from_conf : Builder → Client

-- `if let Some(v) = option { f(v, b) } else { b }`
abbrev pub apply {ℓ κ} : {A : Type ℓ} {B : Type κ} → (A → B → B) → Option A → B → B
apply f none b = b
apply f (some a) b = f a b

module _ (api : Timeouts) where
  -- `ClientConfig::build_timeout_config`
  unfoldable pub build_timeout_config : CliTimeoutConfig → Option api.TimeoutConfig
  build_timeout_config c =
      if not (is_some c.operation_timeout_milliseconds)
        && (not (is_some c.operation_attempt_timeout_milliseconds)
            && (not (is_some c.connect_timeout_milliseconds)
                && not (is_some c.read_timeout_milliseconds)))
      then none
      else some (
          api.build (
            apply api.read_timeout c.read_timeout_milliseconds (
              apply api.connect_timeout c.connect_timeout_milliseconds (
                apply api.operation_attempt_timeout c.operation_attempt_timeout_milliseconds
                  (apply api.operation_timeout c.operation_timeout_milliseconds api.builder)))))

module _ (aws : Aws) where
  -- The files of a profile, if either is named.
  unfoldable pub profile_files : ClientConfigLocation → Option aws.EnvConfigFiles
  profile_files location =
      if is_some location.aws_config_file || is_some location.aws_shared_credentials_file
      then some (
          apply aws.with_credentials location.aws_shared_credentials_file
            (apply aws.with_config location.aws_config_file aws.no_files))
      else none

  abbrev provide : ClientConfigLocation → S3Credentials → aws.ConfigLoader → aws.ConfigLoader
  provide location (credentials keys) loader =
      aws.credentials_provider
        (aws.static_credentials keys.access_key keys.secret_access_key keys.session_token) loader
  provide location (profile name) loader =
      aws.credentials_provider (aws.profile_credentials (profile_files location) name) loader
  provide location from_environment loader = loader

  -- `ClientConfig::load_config_credential`
  unfoldable pub load_config_credential : ClientConfig → aws.ConfigLoader → aws.ConfigLoader
  unfolding profile_files
  load_config_credential c loader = provide c.client_config_location c.credential loader

  abbrev region_of : ClientConfigLocation → Option String → S3Credentials → aws.RegionProvider
  region_of location region from_environment = aws.region_or_default region
  region_of location region (profile name) =
      aws.region_or_else region (aws.profile_region (profile_files location) (some name))
  region_of location region (credentials keys) =
      aws.region_or_else region (aws.profile_region none none)

  -- `ClientConfig::build_region_provider`
  unfoldable pub build_region_provider : ClientConfig → aws.RegionProvider
  unfolding profile_files
  build_region_provider c = region_of c.client_config_location c.region c.credential

  -- `ClientConfig::build_retry_config`
  unfoldable pub build_retry_config : ClientConfig → aws.RetryConfig
  build_retry_config c =
      aws.standard_retry c.retry_config.aws_max_attempts c.retry_config.initial_backoff_milliseconds

  -- `ClientConfig::load_sdk_config`
  unfoldable pub load_sdk_config : ClientConfig → aws.SdkConfig
  unfolding load_config_credential build_region_provider build_retry_config
  load_sdk_config c =
      let loader =
        aws.stalled_stream_protection (not c.disable_stalled_stream_protection) aws.defaults in
      let configured =
        aws.retry_config (build_retry_config c)
          (aws.region (build_region_provider c) (load_config_credential c loader)) in
      aws.load (apply aws.endpoint_url c.endpoint_url configured)

  -- `ClientConfig::create_client`
  unfoldable pub create_client : ClientConfig → aws.Client
  unfolding load_sdk_config build_timeout_config
  create_client c =
      let builder = aws.accelerate c.accelerate (
        aws.request_checksum_calculation c.request_checksum_calculation
          (aws.force_path_style c.force_path_style (aws.from_sdk_config (load_sdk_config c)))) in
      aws.from_conf
        (apply aws.timeout_config (build_timeout_config aws.timeouts c.cli_timeout_config) builder)
