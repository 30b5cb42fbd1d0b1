-- ===== src/Filters/Chain.antt =====
-- `DeletionPipeline::filter_objects` of src/pipeline.rs: which filter stages run, in which order.
pub mod Laws
use s3rm_rs.Base.{
  ℕ, zero, suc, Bool, Option, none, some, is_some, String, List, [], ◌∷◌, Result, if◌then◌else◌,
}
use s3rm_rs.Types.Object.{S3Object}
use s3rm_rs.Types.Error.{Error}
use s3rm_rs.Types.Sdk.{Sdk}
use s3rm_rs.Config.{Config}
use s3rm_rs.Stage.{Surroundings}
use s3rm_rs.Filters.Predicates.{
  is_match, is_not_match, is_before, is_after_or_equal, is_smaller, is_larger_or_equal,
  is_not_latest, is_delete_marker,
}
use s3rm_rs.Filters.Loop.{receive_and_filter, user_defined_filter}

module _ (x : Sdk) where
  -- A stage that `spawn_filter` runs: its name and its test.
  pub record Filter : Type 0 where
    pub name : String
    pub test : S3Object x.DateTime → Bool

  abbrev insert_if : Bool → Filter → List Filter → List Filter
  insert_if on f rest = if on then f ∷ rest else rest

  -- The `ObjectFilter` stages, each inserted only if its setting is there.
  unfoldable pub object_filters : Config x → List Filter
  object_filters config =
      insert_if fc.delete_marker_only
        (record { name = "DeleteMarkerOnlyFilter"; test = λ o. is_delete_marker x o fc })
        (insert_if (is_some fc.before_time)
          (record { name = "MtimeBeforeFilter"; test = λ o. is_before x o fc })
          (insert_if (is_some fc.after_time)
            (record { name = "MtimeAfterFilter"; test = λ o. is_after_or_equal x o fc })
            (insert_if (is_some fc.smaller_size)
              (record { name = "SmallerSizeFilter"; test = λ o. is_smaller x o fc })
              (insert_if (is_some fc.larger_size)
                (record { name = "LargerSizeFilter"; test = λ o. is_larger_or_equal x o fc })
                (insert_if (is_some fc.include_regex)
                  (record { name = "IncludeRegexFilter"; test = λ o. is_match x o fc })
                  (insert_if (is_some fc.exclude_regex)
                    (record { name = "ExcludeRegexFilter"; test = λ o. is_not_match x o fc })
                    (insert_if fc.keep_latest_only
                      (record { name = "KeepLatestOnlyFilter"; test = λ o. is_not_latest x o fc })
                      [])))))))
    where
      open config use {filter_config as fc}

  module _ (env : ℕ → Surroundings) (registered : Bool) where
    -- The stages in a row: each receives what the one before it passes on. Stage n has the
    -- surroundings `env n`.
    unfoldable pub run_filters :
        ℕ → List Filter → List (S3Object x.DateTime) → List (S3Object x.DateTime)
    run_filters n [] input = input
    run_filters n (f ∷ filters) input =
        run_filters (suc n) filters
          (receive_and_filter x (env (suc n)) registered f.name f.test 0 0 input).passed

    -- All filter stages, that of the callback last and only if one is registered: what reaches the
    -- delete workers, of the objects that the lister sends.
    unfoldable pub filter_objects :
        Config x
        → (ℕ → S3Object x.DateTime → Result Bool Error)
        → List (S3Object x.DateTime)
        → List (S3Object x.DateTime)
    unfolding run_filters object_filters
    filter_objects config execute input =
        let filtered = run_filters 0 (object_filters config) input in
        if config.filter_callback_registered
        then (user_defined_filter x (env 0) registered (some execute) 0 0 filtered).passed
        else filtered
