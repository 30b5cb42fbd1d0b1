-- ===== src/Deleter/Selected.antt =====
-- From the listing to the target: the filter stages of src/filters in front of a delete worker of
-- src/deleter/mod.rs.
use s3rm_rs.Base.{
  min, ℕ, ◌≡◌, refl, ◌⊎◌, Bool, true, false, Option, String, List, Result, ok, All, All-map,
}
use s3rm_rs.Types.Object
use s3rm_rs.Types.Object.{S3Object}
use s3rm_rs.Types.Error.{Error}
use s3rm_rs.Types.Sdk.{Sdk}
use s3rm_rs.Config.{Config}
use s3rm_rs.Storage.{Storage}
use s3rm_rs.Stage.{Surroundings}
use s3rm_rs.Filters.Chain.{filter_objects}
use s3rm_rs.Filters.Chain.Laws.{selects, filter_objects-All}
use s3rm_rs.Deleter.World.{World}
use s3rm_rs.Deleter.Backend.{max_batch_size}
use s3rm_rs.Deleter.Backend.Confined.{IsConfined, Allowed, Holds}
use s3rm_rs.Deleter.Worker.{receive_and_delete}
use s3rm_rs.Deleter.Worker.Confined.{receive_and_delete-Holds}

module _ (x : Sdk) (config : Config x) (execute : ℕ → S3Object x.DateTime → Result Bool Error)
    (Listed : S3Object x.DateTime → Type 0) where
  -- A listed object that every setting selects and that the callback, if there is one, approved.
  abbrev pub Chosen : S3Object x.DateTime → Type 0
  Chosen o =
      Listed o
      × (selects x config.filter_config o ≡ true)
      × ((config.filter_callback_registered ≡ false) ⊎ ((n : ℕ) × (execute n o ≡ ok true)))

  -- The key and version of such an object.
  abbrev pub IsChosen : String → Option String → Type 0
  IsChosen key version_id =
      (o : S3Object x.DateTime) × (Object.key o ≡ key)
      × (Object.version_id o ≡ version_id)
      × Chosen o

  -- A delete worker behind the filter stages, with nothing else in its buffer, makes delete calls
  -- only for listed objects that every setting selects and the callback, if there is one, approved:
  -- what deletes of such keys and reads keep true of the target, it keeps true, however the tasks
  -- interleave, if a batch delete of such keys reports errors for such keys alone. A batch delete has
  -- one key at least, and at most the batch size and 1000.
  pub filtered-Holds :
      (t : Storage) (P : t.State → Type 0)
      → IsConfined t IsChosen (min config.batch_size max_batch_size) P
      → (envs : ℕ → Surroundings) (env : Surroundings) (registered : Bool)
        (input : List (S3Object x.DateTime))
      → All Listed input
      → (w : World x t) → Holds x t P (All (Allowed IsChosen)) w
      → P
          (receive_and_delete x t config env
            (filter_objects x envs registered config execute input)
            w).0.target
  filtered-Holds t P confined envs env registered input listed w h =
      (receive_and_delete-Holds x t config env IsChosen P confined
        (filter_objects x envs registered config execute input) w
        (All-map (λ o chosen. (o, refl, refl, chosen)) _
          (filter_objects-All x envs registered config execute Listed input listed))
        h).0
