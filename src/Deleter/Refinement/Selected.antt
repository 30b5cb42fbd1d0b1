-- ===== src/Deleter/Refinement/Selected.antt =====
-- From the bucket to its deletes: the lister (src/lister.rs), the filter stages (src/filters) and the
-- delete workers (src/deleter/mod.rs), which nothing holds up.
use mathlib.Core.List.{flatten, Perm}
use mathlib.Core.List.Perm
use s3rm_rs.Base.{
  ℕ, ◌≤◌, ◌≡◌, ◌∙◌, ap, Bool, false, String, List, [], ◌++◌, Result, ok, filter_by, All, append-nil,
  length, subst,
}
use s3rm_rs.Base.Orders.{filter_by-Perm}
use s3rm_rs.Types.Object.{S3Object}
use s3rm_rs.Types.Error.{Error}
use s3rm_rs.Types.Sdk.{Sdk}
use s3rm_rs.Config.{Config}
use s3rm_rs.Storage.{Storage}
use s3rm_rs.Storage.Listing.Parallel.{Scheduler}
use s3rm_rs.Storage.Listing.Parallel.Fair.{IsFair}
use s3rm_rs.Storage.Listing.Dispatch.{list_target}
use s3rm_rs.Storage.Listing.Dispatch.Laws.{wanted, Holds, fuel_of, list_target_complete}
use s3rm_rs.Storage.Listing.Contract.{Objects}
use s3rm_rs.Stage.{Surroundings}
use s3rm_rs.Filters.Loop.Laws.{IsQuiet}
use s3rm_rs.Filters.Chain.{filter_objects}
use s3rm_rs.Filters.Chain.Laws.{selects, filter_objects-quiet}
use s3rm_rs.Deleter.World.{World}
use s3rm_rs.Deleter.Worker.{receive_and_delete}
use s3rm_rs.Deleter.Refinement.{Identity, identities, IsFaithful}
use s3rm_rs.Deleter.Refinement.Flush.{IsPlain}
use s3rm_rs.Deleter.Refinement.Worker.{receive_and_delete-refines}
use s3rm_rs.Deleter.Workers.{Workers, Reaches}
use s3rm_rs.Deleter.Refinement.Workers.{Run, Run-refines}

module _ (x : Sdk) (t : Storage) (config : Config x) (view : t.State → List Identity) where
  -- Lister, filter stages and a delete worker, one behind the other.
  abbrev pub deletes :
      Scheduler x
      → ℕ
      → (ℕ → Surroundings)
      → Bool
      → (ℕ → S3Object x.DateTime → Result Bool Error)
      → Surroundings
      → World x t
      → World x t × Result (Unit {0}) Error
  deletes scheduler fuel envs registered execute env w =
      receive_and_delete x t config env
        (filter_objects x envs registered config execute (list_target x config scheduler fuel).sent)
        w

  -- Where nothing holds the stages up, no callback filters, and S3 serves the bucket and refuses no
  -- delete, one pass deletes exactly the objects that the bucket has below the configured prefix and
  -- the settings select, in some order and each as often as the bucket has it, and ends well. With
  -- all versions asked for, the objects are all versions and all delete markers.
  pub deletes-selected :
      (scheduler : Scheduler x) (k fuel : ℕ) (below : String → Objects x) (envs : ℕ → Surroundings)
      (registered : Bool) (execute : ℕ → S3Object x.DateTime → Result Bool Error)
      (env : Surroundings) (w : World x t)
      → IsFair x scheduler config (wanted x scheduler config)
      → Holds x scheduler config k below
      → fuel_of x scheduler config k ≤ fuel
      → ((n : ℕ) → IsQuiet x (envs n))
      → IsQuiet x env
      → config.filter_callback_registered ≡ false
      → IsFaithful t view
      → IsPlain t config
      → w.sent ≡ []
      → w.buffer ≡ []
      → w.cancelled ≡ false
      → let m = deletes scheduler fuel envs registered execute env w in
        (m.1 ≡ ok tt)
        × ((chosen : List (S3Object x.DateTime)) × Perm chosen
              (filter_by (selects x config.filter_config) (below config.target.prefix))
            × (view m.0.target ≡ view w.target ++ identities chosen))
  deletes-selected scheduler k fuel below envs registered execute env w fair held enough quiets
        quiet absent faithful plain fresh clear live =
      let listed = list_target_complete x scheduler config k below fair held fuel enough in
      let received = (list_target x config scheduler fuel).sent in
      let filtered = filter_objects-quiet x envs registered quiets config execute received absent in
      let done =
        receive_and_delete-refines x t config view faithful plain env quiet
          (filter_objects x envs registered config execute received) w fresh clear live in
      (
        done.0,
        (
          filter_by (selects x config.filter_config) received,
          filter_by-Perm (selects x config.filter_config) received (below config.target.prefix)
              listed.0,
          done.1 ∙ ap (λ os. view w.target ++ identities os) filtered,
        ),
      )

  -- Where nothing holds the stages up, no callback filters, and S3 serves the bucket and refuses no
  -- delete, several workers that start with empty buffers, have taken all that comes through the
  -- filters and have flushed their buffers, have deleted exactly the objects that the bucket has below
  -- the configured prefix and the settings select, each as often as the bucket has it, however their
  -- moves interleave. With all versions asked for, the objects are all versions and all delete
  -- markers. Their run is one of those of `Reaches`.
  pub workers_delete-selected :
      (scheduler : Scheduler x) (k fuel : ℕ) (below : String → Objects x) (envs : ℕ → Surroundings)
      (registered : Bool) (execute : ℕ → S3Object x.DateTime → Result Bool Error)
      (taken : List (S3Object x.DateTime)) (p q : Workers x t)
      → IsFair x scheduler config (wanted x scheduler config)
      → Holds x scheduler config k below
      → fuel_of x scheduler config k ≤ fuel
      → ((n : ℕ) → IsQuiet x (envs n))
      → config.filter_callback_registered ≡ false
      → (faithful : IsFaithful t view) (plain : IsPlain t config) → All (λ b. b ≡ []) p.buffers
      → p.shared.cancelled ≡ false
      → Run x t config view faithful plain taken p q
      → Perm taken (
          filter_objects x envs registered config execute
            (list_target x config scheduler fuel).sent)
      → flatten q.buffers ≡ []
      → Reaches x t config (length taken) p q
        × ((chosen : List (S3Object x.DateTime)) × Perm chosen
              (filter_by (selects x config.filter_config) (below config.target.prefix))
            × (view q.shared.target ≡ view p.shared.target ++ identities chosen))
  workers_delete-selected scheduler k fuel below envs registered execute taken p q fair held enough
        quiets absent faithful plain empty live run took flushed =
      let listed = list_target_complete x scheduler config k below fair held fuel enough in
      let received = (list_target x config scheduler fuel).sent in
      let filtered = filter_objects-quiet x envs registered quiets config execute received absent in
      let (reached, (deleted, done, all)) =
        Run-refines x t config view faithful plain taken p q empty live run in
      let deleted_all : Perm deleted taken =
        subst (λ l. Perm l taken) (ap (◌++◌ deleted) flushed ∙ append-nil deleted) all in
      let selected : Perm taken (filter_by (selects x config.filter_config) received) =
        subst (Perm taken) filtered took in
      (
        reached,
        (
          deleted,
          Perm.trans deleted_all (
              Perm.trans selected (
                filter_by-Perm (selects x config.filter_config) received
                  (below config.target.prefix) listed.0)),
          done,
        ),
      )
