-- ===== src/Tests.antt =====
-- A concrete setting for runs of the model: times and floats are numbers, a regular expression is a
-- text that matches itself, and the target keeps a list of the keys that it deleted.
pub mod Workers
pub mod Runs
pub mod Selection
pub mod Confined
pub mod Reports
pub mod Listings
pub mod Arguments
pub mod Targets
pub mod Refinements
pub mod Permits
pub mod Indicators
pub mod Clients
pub mod Scripts
pub mod Limits
pub mod Interleavings
use s3rm_rs.Base.{
  ℕ, ◌+◌, ◌≤◌, ◌≡◌, refl, Bool, true, false, Option, none, some, String, List, [], ◌∷◌, ◌++◌, map,
  length, length-map, length-append, Result, ok, err, ltb, leb, str_eq, arith,
}
use s3rm_rs.Base.Int.{ℤ, pos}
use s3rm_rs.Types.Object
use s3rm_rs.Types.Object.{S3Object}
use s3rm_rs.Types.Stats
use s3rm_rs.Types.Error.{Error}
use s3rm_rs.Types.Sdk.{Sdk}
use s3rm_rs.Config.{Config}
use s3rm_rs.Config.Defaults.{for_target}
use s3rm_rs.Storage.{Storage, ObjectIdentifier}
use s3rm_rs.Stage.{Surroundings}
use s3rm_rs.Deleter.World.{World}
use s3rm_rs.Deleter.Backend.Meter.{IsMetered}

abbrev pub sdk : Sdk
sdk = record {
  DateTime = ℕ;
  Utc = ℕ;
  Regex = String;
  F64 = ℕ;
  Shell = ℕ;
  fmt = λ t. some "1970-01-01T00:00:00Z";
  to_millis = λ t. some (pos t);
  to_chrono_utc = λ m. some 0;
  lt_utc = ltb;
  le_utc = leb;
  is_match = λ r s. ok (str_eq r s);
  encode = λ s. s;
}

abbrev pub bucket : Storage
bucket = record {
  State = List String;
  head_object = λ k v s. (s, ok (record { content_type = some "text/plain"; metadata = none }));
  get_object_tagging = λ k v s. (s, ok (record { tag_set = [] }));
  delete_object = λ k v e s. (k ∷ s, ok tt);
  delete_objects = λ ids s. (
    map (λ i. i.key) ids ++ s,
    ok (record {
      deleted = map (λ i. record { key = some i.key; version_id = i.version_id }) ids;
      errors = [];
    }),
  );
  is_versioning_enabled = λ s. (s, ok false);
}

abbrev pub deletions : List String → ℕ
deletions = length

pub bucket-IsMetered : IsMetered bucket deletions
bucket-IsMetered = record {
  head = λ k v s. refl;
  tagging = λ k v s. refl;
  single = λ k v e s. omega arith;
  batch =
      λ ids s. omega (arith, length-append (map (λ i. i.key) ids) s, length-map (λ i. i.key) ids);
}

-- Nobody cancels, and every object is taken.
abbrev pub calm : Surroundings
calm = record { accepts = λ n. true; is_closed = λ n. false; is_cancelled = λ n. false }

abbrev pub config : Config sdk
config = for_target sdk "photos" "2019/"

abbrev pub object : String → S3Object ℕ
object key = Object.new 0 key (pos 10)

-- The shared state at the start of a run.
abbrev pub world : World sdk bucket
world = record {
  target = [];
  cancelled = false;
  has_warning = false;
  stats = [];
  events = [];
  report = Stats.new;
  delete_counter = 0;
  buffer = [];
  sent = [];
  reads = 0;
  sends = 0;
}
