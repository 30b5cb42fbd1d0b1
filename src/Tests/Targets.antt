-- ===== src/Tests/Targets.antt =====
-- Runs of the listing in parallel, and errors of the S3 storage.
use mathlib.Core.List.{Perm, flatten}
use mathlib.Core.List.Perm
use s3rm_rs.Base.{
  ℕ, ◌≤◌, ◌≡◌, refl, Bool, true, false, ◌||◌, ◌++◌, map, str_eq, All, Option, none, some, String,
  List, [], ◌∷◌, ok, err, unwrap_or, ◌==◌, arith,
}
use s3rm_rs.Types.Object.{S3Object, Object, not_versioning}
use s3rm_rs.Types.Error.{
  Error, ServiceError, service, is_not_found_error, has_not_found_code,
  extract_delete_object_error_code,
}
use s3rm_rs.Types.Target.{is_empty}
use s3rm_rs.Config.Defaults.{for_target}
use s3rm_rs.Storage.Listing.{ListApi, objects}
use s3rm_rs.Storage.Listing.Contract.{Serves, last, first, objects_end}
use s3rm_rs.Storage.Listing.Parallel.{Scheduler, list_with_parallel}
use s3rm_rs.Storage.Listing.Parallel.Fair.{IsFair}
use s3rm_rs.Storage.Listing.Parallel.Laws.{list_with_parallel_complete}
use s3rm_rs.Storage.Listing.Dispatch.{list_target}
use s3rm_rs.Storage.Listing.Dispatch.Laws.{wanted, Holds, fuel_of, list_target_complete}
use s3rm_rs.Storage.S3.{Client, s3_storage}
use s3rm_rs.Storage.S3.Laws.{Failed, s3_storage-errors}
use s3rm_rs.Tests.{sdk, calm, config}
use s3rm_rs.Tests.Listings.{entry}

-- "a" lies at the top, and "x/b" below the prefix "x/".
abbrev contents_of : Bool → Option String → List (Object ℕ)
contents_of true delimiter = entry "x/b" ∷ []
contents_of false none = entry "a" ∷ entry "x/b" ∷ []
contents_of false (some d) = entry "a" ∷ []

abbrev prefixes_of : Bool → Option String → List String
prefixes_of true delimiter = []
prefixes_of false none = []
prefixes_of false (some d) = "x/" ∷ []

abbrev api : ListApi sdk
api = record {
  list_objects_v2 = λ n prefix delimiter token. ok (record {
    contents = contents_of (str_eq prefix "x/") delimiter;
    common_prefixes = map some (prefixes_of (str_eq prefix "x/") delimiter);
    is_truncated = none;
    next_continuation_token = none;
  });
  list_object_versions = λ n prefix delimiter key_marker version_id_marker. ok (record {
    versions = [];
    delete_markers = [];
    common_prefixes = [];
    is_truncated = none;
    next_key_marker = none;
    next_version_id_marker = none;
  });
}

abbrev pub below : String → List (S3Object ℕ)
below prefix = map not_versioning (contents_of (str_eq prefix "x/") none)

abbrev pub scheduler : Scheduler sdk
scheduler = record {
  api = λ id. api;
  surroundings = λ id. calm;
  interleave = λ id number lists. flatten lists;
  join_order = λ id number outcomes. outcomes;
}

pub scheduler-IsFair : IsFair sdk scheduler config objects
scheduler-IsFair = record {
  quiet = λ id. record { live = λ n. refl; accepting = λ n. refl };
  taken = λ id number lists. Perm.refl (flatten lists);
  joined = λ id number outcomes h. h;
}

api-Serves : Serves sdk api objects 1 below
unfolding is_empty flatten
api-Serves = record {
  flat = λ p. (
    1,
    omega arith,
    (
      _,
      last 0 first _ [] (objects_end 0 first _ [] refl tt (no_prefixes (str_eq p "x/"))),
      Perm.refl (below p),
    ),
  );
  grouped = λ p. (
    1,
    omega arith,
    (
      _,
      prefixes_of (str_eq p "x/") (some "/"),
      last 0 first _ _ (objects_end 0 first _ _ refl tt refl),
      named (str_eq p "x/"),
      adds_up (str_eq p "x/"),
    ),
  );
}
  where
    no_prefixes : (b : Bool) → map some (prefixes_of b none) ≡ []
    no_prefixes true = refl
    no_prefixes false = refl

    named : (b : Bool) → All (λ p. is_empty p ≡ false) (prefixes_of b (some "/"))
    named true = tt
    named false = (refl, tt)

    adds_up :
        (b : Bool)
        → Perm
            (map not_versioning (contents_of b (some "/"))
              ++ flatten (map below (prefixes_of b (some "/"))))
            (map not_versioning (contents_of b none))
    adds_up true = Perm.refl _
    adds_up false = Perm.refl _

pub enough : fuel_of sdk scheduler config 1 ≤ 20
unfolding for_target
enough = omega arith

list_with_parallel_complete_example :
    Perm
      (list_with_parallel sdk scheduler config objects 20 [] "" 1).sent
      (below config.target.prefix)
    × ((list_with_parallel sdk scheduler config objects 20 [] "" 1).outcome ≡ some (ok tt))
list_with_parallel_complete_example =
    list_with_parallel_complete sdk scheduler config objects scheduler-IsFair 1 below
      (λ id. api-Serves) 20 enough

pub bucket-Holds : Holds sdk scheduler config 1 below
unfolding for_target
bucket-Holds = λ id. api-Serves

pub scheduler-IsFair_target : IsFair sdk scheduler config (wanted sdk scheduler config)
unfolding for_target
scheduler-IsFair_target = scheduler-IsFair

list_target_complete_example :
    Perm (list_target sdk config scheduler 20).sent (below config.target.prefix)
    × ((list_target sdk config scheduler 20).outcome ≡ some (ok tt))
list_target_complete_example =
    list_target_complete sdk scheduler config 1 below scheduler-IsFair_target bucket-Holds 20 enough

abbrev missing : ServiceError
missing = record {
  code = some "NoSuchKey";
  message = none;
  is_not_found = true;
  status = 404;
  text = "service error";
}

-- An S3 where every call fails in this way.
abbrev failing : Client
failing = record {
  State = Unit;
  acquire = λ l n s. s;
  head_object = λ payer bucket key version_id s. (s, err (service missing));
  get_object_tagging = λ payer bucket key version_id s. (s, err (service missing));
  delete_object = λ payer bucket key version_id if_match s. (s, err (service missing));
  delete_objects = λ payer bucket ids s. (s, err (service missing));
  get_bucket_versioning = λ bucket s. (s, err (service missing));
}

s3_storage-errors_example :
    ((error : Error) × Failed ((s3_storage failing none "b" none).head_object "k" none tt) error
      × (is_not_found_error error ≡ true))
    × ((error : Error) × Failed
          ((s3_storage failing none "b" none).get_object_tagging "k" none tt)
          error
        × (is_not_found_error error ≡ (has_not_found_code missing.code || (missing.status == 404))))
    × ((error : Error) × Failed
          ((s3_storage failing none "b" none).delete_object "k" none none tt)
          error
        × (extract_delete_object_error_code error ≡ unwrap_or missing.code "unknown"))
s3_storage-errors_example =
    s3_storage-errors failing none "b" none tt "k" none none missing missing missing refl refl refl
