-- ===== src/Tests/Refinements.antt =====
-- Runs of a delete worker that nothing holds up, at a target that keeps a list of its deletes.
use mathlib.Core.List.{Perm, reverse}
use s3rm_rs.Base.{
  ℕ, ◌≡◌, refl, Bool, true, false, none, some, List, [], ◌∷◌, ◌++◌, map, Result, ok, filter_by,
}
use s3rm_rs.Types.Object.{S3Object}
use s3rm_rs.Types.Stats
use s3rm_rs.Types.Error.{Error}
use s3rm_rs.Config.{Config}
use s3rm_rs.Config.Defaults.{for_target}
use s3rm_rs.Storage.{Storage}
use s3rm_rs.Filters.Chain.Laws.{selects}
use s3rm_rs.Deleter.World.{World}
use s3rm_rs.Deleter.Attributes.{needs_head_object, needs_tagging}
use s3rm_rs.Deleter.Worker.{receive_and_delete}
use s3rm_rs.Deleter.Worker.Requests.{logged, AreSized, receive_and_delete-AreSized}
use s3rm_rs.Deleter.Refinement.{Identity, identities, requested, IsFaithful}
use s3rm_rs.Deleter.Refinement.Flush.{IsPlain}
use s3rm_rs.Deleter.Refinement.Worker.{receive_and_delete-refines}
use s3rm_rs.Deleter.Refinement.Selected.{deletes, deletes-selected}
use s3rm_rs.Tests.{sdk, bucket, calm, config, object}
use s3rm_rs.Tests.Targets.{scheduler, below, scheduler-IsFair_target, bucket-Holds, enough}

abbrev pub ledger : Storage
ledger = record {
  State = List Identity;
  head_object = λ k v s. (s, ok (record { content_type = none; metadata = none }));
  get_object_tagging = λ k v s. (s, ok (record { tag_set = [] }));
  delete_object = λ k v e s. (s ++ (k, v) ∷ [], ok tt);
  delete_objects = λ ids s. (
    s ++ requested ids,
    ok (record {
      deleted = map (λ i. record { key = some i.key; version_id = i.version_id }) ids;
      errors = [];
    }),
  );
  is_versioning_enabled = λ s. (s, ok false);
}

abbrev pub view : List Identity → List Identity
view s = s

pub ledger-IsFaithful : IsFaithful ledger view
ledger-IsFaithful = record { single = λ k v e s. (tt, refl); batch = λ ids s. (refl, refl) }

abbrev pub fresh : (t : Storage) → t.State → World sdk t
fresh t s = record {
  target = s;
  cancelled = false;
  has_warning = false;
  stats = [];
  events = [];
  report = Stats.new;
  delete_counter = 0;
  buffer = [];
  sent = [];
  reads = 0;
  sends = 0;
}

abbrev pub received : List (S3Object ℕ)
received = object "a" ∷ object "b" ∷ object "c" ∷ []

abbrev pub pairs : Config sdk
pairs = record config { batch_size = 2 }

pub pairs-IsPlain : IsPlain ledger pairs
unfolding needs_head_object needs_tagging for_target
pairs-IsPlain = record { real = refl; unlimited = refl; no_head = refl; no_tagging = refl }

receive_and_delete-refines_example :
    let m = receive_and_delete sdk ledger pairs calm received (fresh ledger []) in
    (m.1 ≡ ok tt)
    × (view m.0.target ≡ view [] ++ identities received)
    × (reverse m.0.sent ≡ received)
    × (m.0.buffer ≡ [])
receive_and_delete-refines_example =
    receive_and_delete-refines sdk ledger pairs view ledger-IsFaithful pairs-IsPlain calm
      (record { live = λ n. refl; accepting = λ n. refl }) received (fresh ledger []) refl refl refl

pub config-IsPlain : IsPlain ledger config
unfolding needs_head_object needs_tagging for_target
config-IsPlain = record { real = refl; unlimited = refl; no_head = refl; no_tagging = refl }

pub unregistered : config.filter_callback_registered ≡ false
unfolding for_target
unregistered = refl

abbrev pub approve : ℕ → S3Object ℕ → Result Bool Error
approve n o = ok true

deletes-selected_example :
    let m =
      deletes sdk ledger config view scheduler 20
        (λ n. calm)
        false
        approve
        calm
        (fresh ledger []) in
    (m.1 ≡ ok tt)
    × ((chosen : List (S3Object ℕ)) × Perm chosen
          (filter_by (selects sdk config.filter_config) (below config.target.prefix))
        × (view m.0.target ≡ view [] ++ identities chosen))
deletes-selected_example =
    deletes-selected sdk ledger config view scheduler 1 20 below (λ n. calm) false approve calm
      (fresh ledger []) scheduler-IsFair_target bucket-Holds enough
      (λ n. record { live = λ k. refl; accepting = λ k. refl })
      (record { live = λ n. refl; accepting = λ n. refl }) unregistered ledger-IsFaithful
      config-IsPlain refl refl refl

receive_and_delete-AreSized_example :
    AreSized sdk bucket pairs
      (receive_and_delete sdk
        (logged bucket)
        pairs
        calm
        received
        (fresh (logged bucket) ([], []))).0.target
receive_and_delete-AreSized_example =
    receive_and_delete-AreSized sdk bucket pairs calm received (fresh (logged bucket) ([], [])) tt
