-- ===== src/Storage/Create/Laws.antt =====
-- The rate limiter of `create_storage` in src/storage/mod.rs, under the requests of a delete worker.
use s3rm_rs.Base.{ℕ, ◌+◌, ◌*◌, ◌≤◌, ◌<◌, ◌≡◌, refl, subst, Option, some, List, ok, arith}
use s3rm_rs.Types.Object.{S3Object}
use s3rm_rs.Types.Sdk.{Sdk}
use s3rm_rs.Config.{Config}
use s3rm_rs.Args.{Crates, CliArgs}
use s3rm_rs.Args.Parsers.{IsAccepted, AtLeast}
use s3rm_rs.Args.Build.{try_from}
use s3rm_rs.Args.Build.Laws.{try_from-IsSound}
use s3rm_rs.Storage.{Storage}
use s3rm_rs.Storage.ClientBuilder.{Aws}
use s3rm_rs.Storage.S3.{RateLimiter, Client}
use s3rm_rs.Storage.Create.{rate_limiter, create, create_storage, storage_of}
use s3rm_rs.Storage.Create.Metered.{metered, IsMetered, receive_and_delete-IsMetered}
use s3rm_rs.Stage.{Surroundings}
use s3rm_rs.Deleter.World.{World}
use s3rm_rs.Deleter.Worker.{receive_and_delete}

-- A limiter holds the tokens of one second, is full at first, and in ten refills, the refills of a
-- second, gains no more than the rate, and less than ten short of it.
pub record IsPaced (rate : ℕ) (l : RateLimiter) : Type 0 where
  pub max : l.max ≡ rate
  pub initial : l.initial ≡ rate
  pub gains : 1 ≤ l.refill
  pub within : 10 * l.refill ≤ rate
  pub near : rate < 10 * l.refill + 10

rate_limiter-IsPaced : (rate : ℕ) → 10 ≤ rate → IsPaced rate (rate_limiter rate)
unfolding rate_limiter
rate_limiter-IsPaced rate h = record {
  max = refl;
  initial = refl;
  gains = ground (arith, h);
  within = ground (arith, h);
  near = ground (arith, h);
}

AtLeast-some :
    (x : Sdk) (crates : Crates x) (n rate : ℕ) (o : Option ℕ)
    → o ≡ some rate
    → AtLeast x crates n o
    → n ≤ rate
AtLeast-some x crates n rate o e h = subst (AtLeast x crates n) e h

module _ (x : Sdk) (crates : Crates x) (aws : Aws) (client : Client) where
  -- The storage of a configuration, on a client that keeps a log.
  abbrev pub target_of : Config x → Storage
  target_of config = storage_of aws (metered client) (create_storage aws config)

  -- With a rate limit on the command line that `clap` accepts, ten refills of the storage's limiter
  -- bring at most the rate, and less than ten tokens short of it; the limiter holds the rate, and is
  -- full at first. However S3 answers, a delete worker makes each of its requests once it has waited
  -- for as many of the limiter's tokens as the request has keys, which is never more than the
  -- limiter can hold; so it was for the requests before, by hypothesis.
  pub create_storage-IsPaced :
      (args : CliArgs x) (config : Config x) (rate : ℕ) (env : Surroundings)
      (objects : List (S3Object x.DateTime)) (w : World x (target_of config))
      → IsAccepted x crates args
      → try_from x crates args ≡ ok config
      → config.rate_limit_objects ≡ some rate
      → IsMetered (rate_limiter rate) w.target.1
      → (l : RateLimiter) × ((create_storage aws config).rate_limit_objects_per_sec ≡ some l)
        × IsPaced rate l
        × IsMetered l (receive_and_delete x (target_of config) config env objects w).0.target.1
  unfolding create_storage create
  create_storage-IsPaced args config rate env objects w accepted e limited before =
      let sound = try_from-IsSound x crates args config accepted e in
      let ten = AtLeast-some x crates 10 rate _ limited sound.paced in
      let batch = AtLeast-some x crates config.batch_size rate _ limited sound.rate in
      (
        rate_limiter rate,
        rw limited refl,
        rate_limiter-IsPaced rate ten,
        receive_and_delete-IsMetered x client _ _ (rate_limiter rate) config env objects _
            (rw limited refl) (omega (arith, ten)) batch w before,
      )
