-- ===== src/Storage/Listing/Dispatch.antt =====
-- `list_dispatch` of src/storage/s3/mod.rs, and `ObjectLister` of src/lister.rs on top of it.
pub mod Laws
use s3rm_rs.Base.{
  ℕ, Bool, true, false, not, ◌&&◌, ◌||◌, Option, none, some, String, ◌<>◌, [], Result, ok, err, ltb,
  if◌then◌else◌,
}
use s3rm_rs.Types.Error.{Error, context}
use s3rm_rs.Types.Sdk.{Sdk}
use s3rm_rs.Config.{Config}
use s3rm_rs.Types.Target.{ends_with}
use s3rm_rs.Storage.Listing.{ListingMode, objects, versions, label, start, Listing, list_sequential}
use s3rm_rs.Storage.Listing.Parallel.{Scheduler, Outcome, list_with_parallel}

-- `is_express_onezone_bucket`
unfoldable pub is_express_onezone_bucket : String → Bool
unfolding ends_with
is_express_onezone_bucket bucket = ends_with bucket "--x-s3"

-- `.context(text)` of an answer.
abbrev pub under_context : String → Outcome → Outcome
under_context text none = none
under_context text (some (ok u)) = some (ok u)
under_context text (some (err e)) = some (err (context text e))

module _ (x : Sdk) (config : Config x) where
  abbrev use_parallel : Bool
  use_parallel =
      not (is_express_onezone_bucket config.target.bucket)
      || config.allow_parallel_listings_in_express_one_zone

  -- Whether `list_dispatch` lists in parallel.
  unfoldable pub lists_in_parallel : Bool
  unfolding is_express_onezone_bucket
  lists_in_parallel = ltb 1 config.max_parallel_listings && use_parallel

  abbrev in_context : ListingMode → Listing x → Listing x
  in_context mode l = record l {
    outcome = under_context ("Failed to parallel " <> (label mode <> " listing.")) l.outcome;
  }

  -- `list_dispatch`: the first task has the surroundings and the requests of a sequential listing.
  unfoldable pub list_dispatch : Scheduler x → ListingMode → ℕ → Listing x
  unfolding lists_in_parallel list_with_parallel list_sequential label
  list_dispatch scheduler mode fuel =
      if lists_in_parallel
      then in_context mode (list_with_parallel x scheduler config mode fuel [] "" 1)
      else list_sequential x (scheduler.surroundings []) (scheduler.api []) config mode fuel 0
          (start x) 0 0

  -- The call that `ObjectLister::list_target` makes: `list_object_versions` or `list_objects`.
  unfoldable pub target_mode : ListingMode
  target_mode = if config.delete_all_versions then versions else objects

  unfoldable pub list_target : Scheduler x → ℕ → Listing x
  unfolding list_dispatch target_mode
  list_target scheduler fuel = list_dispatch scheduler target_mode fuel
