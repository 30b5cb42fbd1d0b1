-- ===== src/Config/Client.antt =====
-- `ClientConfig` of src/config/mod.rs and the credentials of src/types/mod.rs. A path is its text.
use s3rm_rs.Base.{ℕ, Bool, Option, String}

pub record AccessKeys : Type 0 where
  pub access_key : String
  pub secret_access_key : String
  pub session_token : Option String

pub data S3Credentials : Type 0 where
  profile : String → S3Credentials
  credentials : AccessKeys → S3Credentials
  from_environment : S3Credentials

pub record ClientConfigLocation : Type 0 where
  pub aws_config_file : Option String
  pub aws_shared_credentials_file : Option String

pub record RetryConfig : Type 0 where
  pub aws_max_attempts : ℕ
  pub initial_backoff_milliseconds : ℕ

pub record CliTimeoutConfig : Type 0 where
  pub operation_timeout_milliseconds : Option ℕ
  pub operation_attempt_timeout_milliseconds : Option ℕ
  pub connect_timeout_milliseconds : Option ℕ
  pub read_timeout_milliseconds : Option ℕ

-- The values of `aws_sdk_s3` and `aws_smithy_types` that are used.
pub data RequestPayer : Type 0 where
  requester : RequestPayer

pub data RequestChecksumCalculation : Type 0 where
  when_required : RequestChecksumCalculation

pub record ClientConfig : Type 0 where
  pub client_config_location : ClientConfigLocation
  pub credential : S3Credentials
  pub region : Option String
  pub endpoint_url : Option String
  pub force_path_style : Bool
  pub accelerate : Bool
  pub request_payer : Option RequestPayer
  pub retry_config : RetryConfig
  pub cli_timeout_config : CliTimeoutConfig
  pub disable_stalled_stream_protection : Bool
  pub request_checksum_calculation : RequestChecksumCalculation
