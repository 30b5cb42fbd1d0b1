-- ===== src/Tests/Selection.antt =====
-- Runs of the filter stages and of the deletion backends.
use s3rm_rs.Base.{
  ℕ, ◌≡◌, refl, ◌⊎◌, Bool, true, false, none, some, List, [], ◌∷◌, Result, ok, err, All, filter_by,
  arith, sym, ap, subst, append-nil, map, ◌++◌, Post,
}
use s3rm_rs.Types.Object.{S3Object}
use s3rm_rs.Types.Error.{Error, message}
use s3rm_rs.Types.Stats
use s3rm_rs.Deleter.World.{World}
use s3rm_rs.Config.{Config}
use s3rm_rs.Filters.Chain.{filter_objects}
use s3rm_rs.Filters.Chain.Laws.{selects, filter_objects-All, filter_objects-quiet}
use s3rm_rs.Filters.Loop.{receive_and_filter}
use s3rm_rs.Filters.Loop.Laws.{Handled, receive_and_filter-Handled}
use s3rm_rs.Deleter.Backend.Reported.{
  Identity, requested, listed_in, refused, IsAccountable, Accounts,
}
use s3rm_rs.Deleter.Backend.Accounts.{batch_delete-Accounts}
use s3rm_rs.Tests.Refinements.{fresh}
use mathlib.Core.List.{Perm}
use mathlib.Core.List.Perm
use s3rm_rs.Deleter.Backend.{batch_delete, retry_failed_key_with_single_delete}
use s3rm_rs.Deleter.Backend.Retry.{retry_failed_key-succeeds, retry_failed_key-exhausted}
use s3rm_rs.Config.Defaults.{for_target}
use s3rm_rs.Storage.{Storage, ObjectIdentifier}
use s3rm_rs.Tests.{sdk, bucket, calm, config, object, world}

abbrev selective : Config sdk
selective = record config {
  filter_config = record config.filter_config { include_regex = some "a" };
}

abbrev listed : List (S3Object ℕ)
listed = object "a" ∷ object "b" ∷ []

abbrev approve_all : ℕ → S3Object ℕ → Result Bool Error
approve_all n o = ok true

filter_objects-All_example :
    All {0, 0}
      (λ o.
        Unit
        × (selects sdk selective.filter_config o ≡ true)
        × ((false ≡ false) ⊎ ((n : ℕ) × (approve_all n o ≡ ok true))))
      (filter_objects sdk (λ n. calm) false selective approve_all listed)
unfolding for_target
filter_objects-All_example =
    filter_objects-All sdk (λ n. calm) false selective approve_all (λ o. Unit) listed (tt, (tt, tt))

filter_objects-quiet_example :
    filter_objects sdk (λ n. calm) false selective approve_all listed
    ≡ filter_by (selects sdk selective.filter_config) listed
unfolding for_target
filter_objects-quiet_example =
    filter_objects-quiet sdk (λ n. calm) false
      (λ n. record { live = λ k. refl; accepting = λ k. refl }) selective approve_all listed refl

abbrev any_size : S3Object ℕ → Bool
any_size o = true

receive_and_filter-Handled_example :
    Handled sdk any_size listed
      (receive_and_filter sdk calm false "LargerSizeFilter" any_size 0 0 listed)
receive_and_filter-Handled_example =
    receive_and_filter-Handled sdk calm false "LargerSizeFilter" any_size 0 0 listed

retry_failed_key-succeeds_example :
    retry_failed_key_with_single_delete sdk bucket config "a" none none "SlowDown" "slow" world
    ≡ (record world { target = "a" ∷ [] }, ok (ok (record { key = "a"; version_id = none })))
retry_failed_key-succeeds_example =
    retry_failed_key-succeeds sdk bucket "a" none none config "SlowDown" "slow" world 0 tt refl
      (omega arith)

-- A target that refuses every single delete.
abbrev locked : Storage
locked = record bucket { delete_object = λ k v e s. (s, err (message "locked")) }

abbrev locked_world : World sdk locked
locked_world = record {
  target = [];
  cancelled = false;
  has_warning = false;
  stats = [];
  events = [];
  report = Stats.new;
  delete_counter = 0;
  buffer = [];
  sent = [];
  reads = 0;
  sends = 0;
}

abbrev impatient : Config sdk
impatient = record config {
  force_retry_config = record { force_retry_count = 1; force_retry_interval_milliseconds = 1000 };
}

retry_failed_key-exhausted_example :
    retry_failed_key_with_single_delete sdk locked impatient "a" none none "SlowDown" "slow"
      locked_world
    ≡ (
      locked_world,
      ok (
          err (record {
            key = "a";
            version_id = none;
            error_code = "SlowDown";
            error_message = "slow";
          })),
    )
retry_failed_key-exhausted_example =
    retry_failed_key-exhausted sdk locked "a" none none impatient "SlowDown" "slow" locked_world
      (refl, (refl, tt))

-- A target that refuses each key of a batch for now, and does single deletes.
abbrev reluctant : Storage
reluctant = record {
  State = List Identity;
  head_object = λ k v s. (s, ok (record { content_type = none; metadata = none }));
  get_object_tagging = λ k v s. (s, ok (record { tag_set = [] }));
  delete_object = λ k v e s. (s ++ (k, v) ∷ [], ok tt);
  delete_objects = λ ids s. (
    s,
    ok (record {
      deleted = [];
      errors =
          map
            (λ i. record {
              key = some i.key;
              version_id = i.version_id;
              code = some "SlowDown";
              message = none;
            })
            ids;
    }),
  );
  is_versioning_enabled = λ s. (s, ok false);
}

abbrev deletes_of : List Identity → List Identity
deletes_of s = s

reluctant-IsAccountable : IsAccountable reluctant deletes_of
reluctant-IsAccountable = record {
  single = λ k v e s. refl;
  batch = λ ids s. (
    sym (append-nil s),
    subst (λ l. Perm l (requested ids)) (all ids) (Perm.refl (requested ids)),
  );
}
  where
    all :
        (ids : List ObjectIdentifier)
        → requested ids
          ≡ refused (
              map
                (λ i. record {
                  key = some i.key;
                  version_id = i.version_id;
                  code = some "SlowDown";
                  message = none;
                })
                ids)
    all [] = refl
    all (i ∷ ids) = ap (◌∷◌ (i.key, i.version_id)) (all ids)

batch_delete-Accounts_example :
    Post
      (Accounts sdk reluctant config deletes_of reluctant-IsAccountable [] (listed_in listed))
      (λ w. Unit)
      (batch_delete sdk reluctant config listed (fresh reluctant []))
batch_delete-Accounts_example =
    batch_delete-Accounts sdk reluctant config deletes_of reluctant-IsAccountable listed
      (fresh reluctant [])
