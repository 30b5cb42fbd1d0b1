-- ===== src/Storage/S3.antt =====
-- `S3Storage` of src/storage/s3/mod.rs, which implements `StorageTrait` on a client of `aws_sdk_s3`.
-- The logging is left out. A storage without a client panics; here there is one.
pub mod Laws
use s3rm_rs.Base.{
  ℕ, zero, suc, Bool, true, false, Option, none, some, String, List, Result, ok, err, if◌then◌else◌,
  length,
}
use s3rm_rs.Types.Error.{
  Error, SdkError, Operation, sdk, context, head_object, get_object_tagging, delete_object,
  delete_objects, get_bucket_versioning,
}
use s3rm_rs.Config.Client.{RequestPayer}
use s3rm_rs.Storage.{
  Storage, HeadObjectOutput, GetObjectTaggingOutput, DeleteObjectsOutput, ObjectIdentifier,
}
use s3rm_rs.Storage.Listing.Dispatch.{is_express_onezone_bucket}

-- `BucketVersioningStatus`; a bucket that never had versioning has none.
pub data BucketVersioningStatus : Type 0 where
  enabled suspended : BucketVersioningStatus
  other : String → BucketVersioningStatus

-- A limiter of `leaky_bucket`: the arguments of `RateLimiter::builder()`. The limiter refills at its own interval of 100 ms.
pub record RateLimiter : Type 0 where
  pub max : ℕ
  pub initial : ℕ
  pub refill : ℕ
  pub fair : Bool

-- The client: S3 in a state of its own, in which the limiter's tokens are taken too. A request names the payer, the bucket, and what it is about.
pub record Client : Type 1 where
  pub State : Type 0
  -- Waits for some tokens of a limiter: `acquire`, and `acquire_one` for one of them.
  pub acquire : RateLimiter → ℕ → State → State
  pub head_object :
      Option RequestPayer
      → String
      → String
      → Option String
      → State
      → State × Result HeadObjectOutput SdkError
  pub get_object_tagging :
      Option RequestPayer
      → String
      → String
      → Option String
      → State
      → State × Result GetObjectTaggingOutput SdkError
  pub delete_object :
      Option RequestPayer
      → String
      → String
      → Option String
      → Option String
      → State
      → State × Result (Unit {0}) SdkError
  pub delete_objects :
      Option RequestPayer
      → String
      → List ObjectIdentifier
      → State
      → State × Result DeleteObjectsOutput SdkError
  -- The status in the output of GetBucketVersioning.
  pub get_bucket_versioning :
      String → State → State × Result (Option BucketVersioningStatus) SdkError

unfoldable pub is_versioned_status : Option BucketVersioningStatus → Bool
is_versioned_status (some enabled) = true
is_versioned_status (some suspended) = true
is_versioned_status _ = false

-- `map_err(|e| anyhow!(e).context(text))`
abbrev pub wrapped :
    {S A : Type 0} → Operation → String → S × Result A SdkError → S × Result A Error
wrapped op text (s, ok a) = (s, ok a)
wrapped op text (s, err e) = (s, err (context text (sdk op e)))

abbrev pub versioned :
    {S : Type 0} → S × Result (Option BucketVersioningStatus) Error → S × Result Bool Error
versioned (s, ok status) = (s, ok (is_versioned_status status))
versioned (s, err e) = (s, err e)

module _ (client : Client) (limiter : Option RateLimiter) where
  abbrev acquired : Option RateLimiter → ℕ → client.State → client.State
  acquired none count s = s
  acquired (some rate_limiter) count s = client.acquire rate_limiter count s

  -- A single call takes one token.
  unfoldable pub exec_rate_limit_objects_per_sec : client.State → client.State
  exec_rate_limit_objects_per_sec s = acquired limiter 1 s

  -- A call for several objects takes one for each.
  unfoldable pub exec_rate_limit_objects_per_sec_n : ℕ → client.State → client.State
  exec_rate_limit_objects_per_sec_n zero s = s
  exec_rate_limit_objects_per_sec_n (suc n) s = acquired limiter (suc n) s

module _ (client : Client) (request_payer : Option RequestPayer) (bucket : String)
    (limiter : Option RateLimiter) where
  -- `S3Storage::is_versioning_enabled`
  unfoldable pub is_versioning_enabled : client.State → client.State × Result Bool Error
  unfolding is_express_onezone_bucket is_versioned_status
  is_versioning_enabled s =
      if is_express_onezone_bucket bucket
      then (s, ok false)
      else versioned (
          wrapped get_bucket_versioning "aws_sdk_s3::client::get_bucket_versioning() failed."
            (client.get_bucket_versioning bucket s))

  -- The operations of `S3Storage`. Building a request of DeleteObjects fails only without a list of
  -- objects, and there is one.
  abbrev pub s3_storage : Storage
  s3_storage = record {
    State = client.State;
    head_object = λ key version_id s.
        wrapped head_object "aws_sdk_s3::client::head_object() failed." (
          client.head_object request_payer bucket key version_id
            (exec_rate_limit_objects_per_sec client limiter s));
    get_object_tagging = λ key version_id s.
        wrapped get_object_tagging "aws_sdk_s3::client::get_object_tagging() failed." (
          client.get_object_tagging request_payer bucket key version_id
            (exec_rate_limit_objects_per_sec client limiter s));
    delete_object = λ key version_id if_match s.
        wrapped delete_object "aws_sdk_s3::client::delete_object() failed." (
          client.delete_object request_payer bucket key version_id if_match
            (exec_rate_limit_objects_per_sec client limiter s));
    delete_objects = λ objects s.
        wrapped delete_objects "aws_sdk_s3::client::delete_objects() failed." (
          client.delete_objects request_payer bucket objects
            (exec_rate_limit_objects_per_sec_n client limiter (length objects) s));
    is_versioning_enabled = is_versioning_enabled;
  }
