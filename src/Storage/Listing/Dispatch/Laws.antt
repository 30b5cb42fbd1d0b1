-- ===== src/Storage/Listing/Dispatch/Laws.antt =====
-- `ObjectLister::list_target` of src/lister.rs, whichever way `list_dispatch` chooses.
use mathlib.Core.List.{Perm}
use s3rm_rs.Base.{
  ℕ, zero, suc, [], ◌≤◌, ◌≡◌, refl, some, String, ok, Bool-cases, inl, inr, arith, if◌then◌else◌,
}
use s3rm_rs.Types.Sdk.{Sdk}
use s3rm_rs.Config.{Config}
use s3rm_rs.Storage.Listing.{ListingMode, objects, versions}
use s3rm_rs.Storage.Listing.Contract.{Objects, Serves}
use s3rm_rs.Storage.Listing.Laws.{list_sequential_complete}
use s3rm_rs.Storage.Listing.Parallel.{TaskId, Scheduler}
use s3rm_rs.Storage.Listing.Parallel.Fair.{IsFair}
use s3rm_rs.Storage.Listing.Parallel.Laws.{fuel_for, list_with_parallel_complete}
use s3rm_rs.Storage.Listing.Dispatch.{lists_in_parallel, list_dispatch, target_mode, list_target}

module _ (x : Sdk) (scheduler : Scheduler x) (config : Config x) where
  -- What is to be deleted: all versions and delete markers, or the current objects.
  abbrev pub wanted : ListingMode
  wanted = if config.delete_all_versions then versions else objects

  -- S3 serves the wanted entries of a bucket to every task, in listings of k pages at most.
  abbrev pub Holds : ℕ → (String → Objects x) → Type 0
  Holds k below = (id : TaskId) → Serves x (scheduler.api id) wanted k below

  -- Fuel for the deepest way to list.
  abbrev pub fuel_of : ℕ → ℕ
  fuel_of k = fuel_for k config.max_parallel_listing_max_depth

  fuel_for-least : (k levels : ℕ) → k ≤ fuel_for k levels
  fuel_for-least k zero = omega arith
  fuel_for-least k (suc levels) = omega arith

  -- With a fair scheduler and enough fuel, the listing of the target ends well and sends each object
  -- that the bucket has below the configured prefix as often as the bucket has it, whether it is
  -- listed in parallel or not: with all versions asked for, each version and each delete marker, and
  -- each current object otherwise.
  pub list_target_complete :
      (k : ℕ) (below : String → Objects x)
      → IsFair x scheduler config wanted
      → Holds k below
      → (fuel : ℕ) → fuel_of k ≤ fuel
      → Perm (list_target x config scheduler fuel).sent (below config.target.prefix)
        × ((list_target x config scheduler fuel).outcome ≡ some (ok tt))
  unfolding list_target list_dispatch target_mode
  list_target_complete k below fair held fuel enough =
      elim (Bool-cases (lists_in_parallel x config)) [
        | inl parallel ↦
            let complete =
              list_with_parallel_complete x scheduler config wanted fair k below held fuel enough in
            rw (parallel, complete.1) (complete.0, refl)
        | inr sequential ↦
            let (m, few, (found, pages, all)) = (held []).flat config.target.prefix in
            let complete =
              list_sequential_complete x (scheduler.api []) config wanted
                (scheduler.surroundings []) (fair.quiet []) m found [] pages fuel
                (omega
                  (arith, few, enough, fuel_for-least k config.max_parallel_listing_max_depth)) in
            rw (sequential, complete.0, complete.1) (all, refl)
      ]
