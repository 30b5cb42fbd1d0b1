-- ===== src/Tests/Limits.antt =====
-- A run of the rate limiter that a configuration from the command line makes.
use s3rm_rs.Base.{◌≡◌, refl, true, none, some, ok, err, List, [], ◌++◌}
use s3rm_rs.Types.Error.{no_response}
use s3rm_rs.Config.{Config}
use s3rm_rs.Args.Build.{try_from}
use s3rm_rs.Storage.{Storage, ObjectIdentifier}
use s3rm_rs.Storage.S3.{RateLimiter, Client}
use s3rm_rs.Storage.Create.{rate_limiter, create_storage}
use s3rm_rs.Storage.Create.Laws.{IsPaced, target_of, create_storage-IsPaced}
use s3rm_rs.Storage.Create.Metered.{IsMetered, nothing}
use s3rm_rs.Deleter.Worker.{receive_and_delete}
use s3rm_rs.Tests.{sdk, calm}
use s3rm_rs.Tests.Arguments.{crates, args, accepted}
use s3rm_rs.Tests.Clients.{aws}
use s3rm_rs.Tests.Refinements.{fresh, received}

limited :
    (config : Config sdk) × (try_from sdk crates args ≡ ok config)
    × (config.rate_limit_objects ≡ some 300)
unfolding try_from
limited = (_, refl, refl)

pace : rate_limiter 300 ≡ record { max = 300; initial = 300; refill = 30; fair = true }
unfolding rate_limiter
pace = refl

-- An S3 that deletes what it is told to, and knows no object.
abbrev client : Client
client = record {
  State = List ObjectIdentifier;
  acquire = λ l n s. s;
  head_object = λ payer b key version_id s. (s, err (no_response "timeout"));
  get_object_tagging = λ payer b key version_id s. (s, err (no_response "timeout"));
  delete_object = λ payer b key version_id if_match s. (s, ok tt);
  delete_objects = λ payer b ids s. (ids ++ s, ok (record { deleted = []; errors = [] }));
  get_bucket_versioning = λ b s. (s, ok none);
}

abbrev target : Storage
target = target_of sdk crates aws client limited.0

create_storage-IsPaced_example :
    (l : RateLimiter) × ((create_storage aws limited.0).rate_limit_objects_per_sec ≡ some l)
    × IsPaced 300 l
    × IsMetered l
        (receive_and_delete sdk target limited.0 calm received (fresh target ([], []))).0.target.1
create_storage-IsPaced_example =
    create_storage-IsPaced sdk crates aws client args limited.0 300 calm received
      (fresh target ([], [])) accepted limited.1 limited.2 nothing
