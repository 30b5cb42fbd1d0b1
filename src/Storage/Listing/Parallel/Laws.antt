-- ===== src/Storage/Listing/Parallel/Laws.antt =====
-- `list_with_parallel` of src/storage/s3/mod.rs, against S3's contract.
use mathlib.Core.List.{flatten, Perm}
use mathlib.Core.List.Perm
use s3rm_rs.Base.{
  ℕ, zero, suc, ◌+◌, ◌≤◌, ◌≡◌, refl, sym, subst, false, some, String, List, [], ◌∷◌, ◌++◌,
  append-nil, ok, arith, leb, Bool-cases, inl, inr,
}
use s3rm_rs.Types.Object.{S3Object}
use s3rm_rs.Types.Sdk.{Sdk}
use s3rm_rs.Config.{Config}
use s3rm_rs.Types.Target.{is_empty}
use s3rm_rs.Storage.Listing.{ListingMode, start}
use s3rm_rs.Storage.Listing.Parallel.{
  TaskId, Scheduler, own_prefix, delimiter, list_pages, list_with_parallel,
}
use s3rm_rs.Storage.Listing.Parallel.Fair.{IsFair, Complete}
use s3rm_rs.Storage.Listing.Contract.{first, Pages, Serves}
use s3rm_rs.Storage.Listing.Parallel.Tasks.{Complete-Perm, list_pages-Pages}

-- Fuel for a task whose listings have k pages at most, with some levels of tasks below it.
abbrev pub fuel_for : ℕ → ℕ → ℕ
fuel_for k zero = k
fuel_for k (suc levels) = k + fuel_for k levels

module _ (x : Sdk) (scheduler : Scheduler x) (config : Config x) (mode : ListingMode) where
  abbrev Objects : Type 0
  Objects = List (S3Object x.DateTime)

  module _ (fair : IsFair x scheduler config mode) where
    module _ (k : ℕ) (below : String → Objects)
        (serves : (id : TaskId) → Serves x (scheduler.api id) mode k below) where
      fuel_for-positive : (levels : ℕ) → k ≤ fuel_for k levels
      fuel_for-positive zero = omega arith
      fuel_for-positive (suc levels) = omega arith

      flat_listing :
          (levels : ℕ) (id : TaskId) (prefix : String) (depth : ℕ)
          → leb depth config.max_parallel_listing_max_depth ≡ false
          → (fuel : ℕ) → fuel_for k levels ≤ fuel
          → Complete x scheduler config mode
              (below prefix)
              (list_pages x scheduler config mode fuel id prefix depth 0 (start x) 0 0)
      unfolding delimiter flatten
      flat_listing levels id prefix depth beyond fuel h =
          let (m, few, (found, pages, all)) = (serves id).flat prefix in
          Complete-Perm x scheduler config mode
            (list_pages x scheduler config mode fuel id prefix depth 0 (start x) 0 0)
            (Perm.trans (rw (append-nil found) (Perm.refl found)) all)
            (lists found m few (rw beyond pages))
        where
          lists :
              (found : Objects) (m : ℕ)
              → m ≤ k
              → Pages x
                  (scheduler.api id)
                  prefix
                  (delimiter x scheduler config mode depth)
                  mode
                  m
                  0
                  first
                  found
                  []
              → Complete x scheduler config mode
                  (found ++ [])
                  (list_pages x scheduler config mode fuel id prefix depth 0 (start x) 0 0)
          lists found m few pages =
              list_pages-Pages x scheduler config mode fair (λ p. ⊥) below id prefix depth 0
                (λ number index sub_prefix never. absurd never) m 0 first found [] tt pages tt fuel
                0 0 (omega (arith, h, few, fuel_for-positive levels))

      own_prefix-named :
          (p : String) → is_empty p ≡ false → own_prefix x scheduler config mode p ≡ p
      unfolding own_prefix
      own_prefix-named p named = rw named refl

      -- A task lists all the objects below its prefix, if the levels below it reach to where no
      -- delimiter is set.
      list_pages-Serves :
          (levels : ℕ) (id : TaskId) (prefix : String) (depth : ℕ)
          → config.max_parallel_listing_max_depth + 1 ≤ depth + levels
          → (fuel : ℕ) → fuel_for k levels ≤ fuel
          → Complete x scheduler config mode
              (below prefix)
              (list_pages x scheduler config mode fuel id prefix depth 0 (start x) 0 0)
      unfolding delimiter
      list_pages-Serves zero id prefix depth deep fuel h =
          flat_listing zero id prefix depth (ground arith) fuel h
      list_pages-Serves (suc levels) id prefix depth deep fuel h =
          elim (Bool-cases (leb depth config.max_parallel_listing_max_depth)) [
            | inr beyond ↦ flat_listing (suc levels) id prefix depth beyond fuel h
            | inl within ↦
                let (m, few, (found, prefixes, pages, named, all)) = (serves id).grouped prefix in
                Complete-Perm x scheduler config mode
                  (list_pages x scheduler config mode fuel id prefix depth 0 (start x) 0 0) all
                  (list_pages-Pages x scheduler config mode fair (λ p. is_empty p ≡ false) below id
                    prefix depth (fuel_for k levels)
                    (λ number index sub_prefix named fuel h.
                      subst
                        (λ p. Complete x scheduler config mode (below sub_prefix) (
                          list_pages x scheduler config mode fuel (index ∷ (number ∷ id)) p
                            (suc depth) 0 (start x) 0 0))
                        (sym (own_prefix-named sub_prefix named))
                        (list_pages-Serves levels (index ∷ (number ∷ id)) sub_prefix (suc depth)
                          (omega (arith, deep)) fuel h))
                    m 0 first found prefixes tt (rw within pages) named fuel 0 0
                    (omega (arith, h, few)))
          ]

    -- With a fair scheduler, and fuel for k pages in each listing and the levels of tasks, the
    -- parallel listing of a bucket that S3 serves, in at most k pages for each listing, ends well
    -- and sends all the objects that the bucket has below the configured prefix, each as often as
    -- the bucket has it, in whichever order the tasks run.
    pub list_with_parallel_complete :
        (k : ℕ) (below : String → Objects)
        → ((id : TaskId) → Serves x (scheduler.api id) mode k below)
        → (fuel : ℕ) → fuel_for k config.max_parallel_listing_max_depth ≤ fuel
        → Perm
            (list_with_parallel x scheduler config mode fuel [] "" 1).sent
            (below config.target.prefix)
          × ((list_with_parallel x scheduler config mode fuel [] "" 1).outcome ≡ some (ok tt))
    unfolding list_with_parallel own_prefix is_empty
    list_with_parallel_complete k below serves fuel enough =
        list_pages-Serves k below serves config.max_parallel_listing_max_depth []
          config.target.prefix 1 (omega arith) fuel enough
