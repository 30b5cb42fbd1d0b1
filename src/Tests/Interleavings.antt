-- ===== src/Tests/Interleavings.antt =====
-- A run of two delete workers that nothing holds up, from the listing to the deletes.
use mathlib.Core.List.{flatten, Perm}
use mathlib.Core.List.Perm
use s3rm_rs.Base.{ℕ, ◌≡◌, refl, sym, subst, List, [], ◌∷◌, ◌++◌, filter_by, false}
use s3rm_rs.Base.Orders.{filter_by-Perm}
use s3rm_rs.Types.Object.{S3Object, not_versioning}
use s3rm_rs.Config.Defaults.{for_target}
use s3rm_rs.Filters.Loop.Laws.{IsQuiet}
use s3rm_rs.Filters.Chain.{filter_objects}
use s3rm_rs.Filters.Chain.Laws.{selects, filter_objects-quiet}
use s3rm_rs.Storage.Listing.Dispatch.{list_target}
use s3rm_rs.Storage.Listing.Dispatch.Laws.{list_target_complete}
use s3rm_rs.Deleter.World.{World}
use s3rm_rs.Stage
use s3rm_rs.Deleter.Attributes.{needs_head_object, needs_tagging}
use s3rm_rs.Deleter.Worker.{process_object}
use s3rm_rs.Deleter.Worker.Flush.{delete_buffered_objects}
use s3rm_rs.Deleter.Workers.{Workers, Reaches, before_step, after_step}
use s3rm_rs.Deleter.Refinement.{identities}
use s3rm_rs.Deleter.Refinement.Workers.{Run, start, process, flush}
use s3rm_rs.Deleter.Refinement.Selected.{workers_delete-selected}
use s3rm_rs.Tests.{sdk, calm, config}
use s3rm_rs.Tests.Listings.{entry}
use s3rm_rs.Tests.Targets.{scheduler, below, scheduler-IsFair_target, bucket-Holds, enough}
use s3rm_rs.Tests.Refinements.{
  ledger, ledger-IsFaithful, view, config-IsPlain, fresh, unregistered, approve,
}

calm-IsQuiet : IsQuiet sdk calm
calm-IsQuiet = record { live = λ n. refl; accepting = λ n. refl }

abbrev two_workers : Workers sdk ledger
two_workers = record { shared = fresh ledger []; buffers = [] ∷ [] ∷ [] }

abbrev first_object : S3Object ℕ
first_object = not_versioning (entry "a")

abbrev second_object : S3Object ℕ
second_object = not_versioning (entry "x/b")

-- The second worker takes an object, then the first one, and both flush at the channel's end.
abbrev one_taken : World sdk ledger
one_taken =
    (process_object sdk ledger config calm first_object
      (before_step sdk ledger (fresh ledger []) [])).0

abbrev both_taken : World sdk ledger
both_taken =
    (process_object sdk ledger config calm second_object (before_step sdk ledger one_taken [])).0

abbrev one_flushed : World sdk ledger
one_flushed =
    (delete_buffered_objects sdk ledger config calm
      (before_step sdk ledger both_taken one_taken.buffer)).0

abbrev both_flushed : World sdk ledger
both_flushed =
    (delete_buffered_objects sdk ledger config calm
      (before_step sdk ledger one_flushed both_taken.buffer)).0

abbrev behind : Workers sdk ledger
behind = after_step sdk ledger [] (one_flushed.buffer ∷ []) both_flushed

abbrev taken : List (S3Object ℕ)
taken = second_object ∷ first_object ∷ []

moves : Run sdk ledger config view ledger-IsFaithful config-IsPlain taken two_workers behind
moves =
    flush calm taken [] (one_flushed.buffer ∷ []) both_taken.buffer one_flushed two_workers
      calm-IsQuiet
      (flush calm taken (both_taken.buffer ∷ []) [] one_taken.buffer both_taken two_workers
        calm-IsQuiet
        (process calm (first_object ∷ []) second_object [] (one_taken.buffer ∷ []) [] one_taken
          two_workers calm-IsQuiet
          (process calm [] first_object ([] ∷ []) [] [] (fresh ledger []) two_workers calm-IsQuiet
            (start two_workers))))

took :
    Perm taken (
      filter_objects sdk
        (λ n. calm)
        false
        config
        approve
        (list_target sdk config scheduler 20).sent)
unfolding for_target selects
took = Perm.symm (
    subst (λ l. Perm l taken)
      (sym (
        filter_objects-quiet sdk (λ n. calm) false (λ n. calm-IsQuiet) config approve
          (list_target sdk config scheduler 20).sent unregistered))
      (Perm.trans
        (filter_by-Perm (selects sdk config.filter_config)
          (list_target sdk config scheduler 20).sent (below config.target.prefix)
          (list_target_complete sdk scheduler config 1 below scheduler-IsFair_target bucket-Holds 20
            enough).0)
        swapped))
  where
    swapped : Perm (filter_by (selects sdk config.filter_config) (below config.target.prefix)) taken
    swapped = Perm.swap second_object first_object []

empty : flatten behind.buffers ≡ []
unfolding flatten process_object delete_buffered_objects needs_head_object needs_tagging for_target
    Stage.send
empty = refl

workers_delete-selected_example :
    Reaches sdk ledger config 2 two_workers behind
    × ((chosen : List (S3Object ℕ)) × Perm chosen
          (filter_by (selects sdk config.filter_config) (below config.target.prefix))
        × (view behind.shared.target ≡ view [] ++ identities chosen))
workers_delete-selected_example =
    workers_delete-selected sdk ledger config view scheduler 1 20 below (λ n. calm) false approve
      taken two_workers behind scheduler-IsFair_target bucket-Holds enough (λ n. calm-IsQuiet)
      unregistered ledger-IsFaithful config-IsPlain (refl, (refl, tt)) refl moves took empty
