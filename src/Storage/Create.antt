-- ===== src/Storage/Create.antt =====
-- `create_storage` of src/storage/mod.rs with `S3StorageFactory` of src/storage/s3/mod.rs.
pub mod Metered
pub mod Laws
use s3rm_rs.Base.{ℕ, ◌/◌, true, Option, none, some, String, if◌then◌else◌, leb}
use s3rm_rs.Types.Sdk.{Sdk}
use s3rm_rs.Config.{Config, StoragePath}
use s3rm_rs.Config.Client.{ClientConfig, RequestPayer}
use s3rm_rs.Storage.{Storage}
use s3rm_rs.Storage.S3.{RateLimiter, Client, s3_storage}
use s3rm_rs.Storage.ClientBuilder.{Aws, create_client}

abbrev pub refill_per_interval_divider : ℕ
refill_per_interval_divider = 10

-- The limiter for `--rate-limit-objects`.
unfoldable pub rate_limiter : ℕ → RateLimiter
rate_limiter rate_limit_value = record {
  max = rate_limit_value;
  initial = rate_limit_value;
  refill =
      if leb rate_limit_value refill_per_interval_divider
      then 1
      else rate_limit_value / refill_per_interval_divider;
  fair = true;
}

abbrev rate_limiter_of : Option ℕ → Option RateLimiter
rate_limiter_of none = none
rate_limiter_of (some rate_limit_value) = some (rate_limiter rate_limit_value)

module _ (aws : Aws) where
  -- What an `S3Storage` is made of, with the permits of its semaphore, and without what it shares with
  -- the pipeline.
  pub record S3Storage : Type 0 where
    pub bucket : String
    pub prefix : String
    pub client : Option aws.Client
    pub request_payer : Option RequestPayer
    pub rate_limit_objects_per_sec : Option RateLimiter
    pub listing_worker_semaphore : ℕ

  abbrev client_of : Option ClientConfig → Option aws.Client
  client_of none = none
  client_of (some client_config) = some (create_client aws client_config)

  abbrev payer_of : Option ClientConfig → Option RequestPayer
  payer_of none = none
  payer_of (some client_config) = client_config.request_payer

  -- `S3StorageFactory::create`
  unfoldable pub create :
      StoragePath → Option ClientConfig → Option RequestPayer → Option RateLimiter → ℕ → S3Storage
  unfolding create_client
  create path client_config request_payer limiter max_parallel_listings = record {
    bucket = path.bucket;
    prefix = path.prefix;
    client = client_of client_config;
    request_payer = request_payer;
    rate_limit_objects_per_sec = limiter;
    listing_worker_semaphore = max_parallel_listings;
  }

  unfoldable pub create_storage : {x : Sdk} → Config x → S3Storage
  unfolding create rate_limiter
  create_storage config =
      create config.target config.target_client_config (payer_of config.target_client_config)
        (rate_limiter_of config.rate_limit_objects) config.max_parallel_listings

  -- The operations of a storage, on the client that it has.
  abbrev pub storage_of : Client → S3Storage → Storage
  storage_of client s = s3_storage client s.request_payer s.bucket s.rate_limit_objects_per_sec
