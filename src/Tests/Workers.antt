-- ===== src/Tests/Workers.antt =====
-- Runs of the delete workers.
use s3rm_rs.Base.{true, ◌≤◌, ◌≡◌, refl, some, [], ◌∷◌, arith}
use s3rm_rs.Config.{Config}
use s3rm_rs.Tests.{sdk, bucket, deletions, bucket-IsMetered, calm, config, object, world}
use s3rm_rs.Deleter.Workers.{Workers, process, Reaches, start, step, after_step, before_step}
use s3rm_rs.Deleter.Worker.{process_object, receive_and_delete}
use s3rm_rs.Deleter.Worker.DryRun.{receive_and_delete-dry_run}
use s3rm_rs.Deleter.Attributes.Laws.{IsReadable}
use s3rm_rs.Types.Object
use s3rm_rs.Stage.{send}
use s3rm_rs.Config.Defaults.{for_target}
use s3rm_rs.Deleter.Attributes.{needs_head_object, needs_tagging}
use s3rm_rs.Deleter.Worker.Flush.{delete_buffered_objects}
use s3rm_rs.Deleter.Workers.Limit.{reached-max_delete}

-- A batch for each object, and at most one object.
abbrev strict : Config sdk
strict = record config { max_delete = some 1; batch_size = 1 }

abbrev two_idle : Workers sdk bucket
two_idle = record { shared = world; buffers = [] ∷ [] ∷ [] }

abbrev one_done : Workers sdk bucket
one_done =
    after_step sdk bucket [] ([] ∷ [])
      (process_object sdk bucket strict calm (object "a") (before_step sdk bucket world [])).0

one_object : Reaches sdk bucket strict 1 two_idle one_done
one_object =
    step 1 0 two_idle two_idle one_done (start two_idle)
      (process calm (object "a") [] ([] ∷ []) [] world)

reached-max_delete_example : deletions one_done.shared.target ≤ 1
reached-max_delete_example =
    reached-max_delete sdk bucket deletions bucket-IsMetered strict 1 refl 1 two_idle one_done
      (omega arith) refl refl one_object

one_done-target : one_done.shared.target ≡ "a" ∷ []
unfolding process_object needs_head_object for_target needs_tagging delete_buffered_objects send
    Object.new
one_done-target = refl

-- A dry run over two objects.
abbrev trial : Config sdk
trial = record config { dry_run = true }

abbrev reading : IsReadable sdk bucket trial (λ s. s ≡ [])
reading = record { head = λ k v s h. h; tagging = λ k v s h. h }

receive_and_delete-dry_run_example :
    (receive_and_delete sdk bucket trial calm (object "a" ∷ object "b" ∷ []) world).0.target ≡ []
receive_and_delete-dry_run_example =
    receive_and_delete-dry_run sdk bucket trial calm (λ s. s ≡ []) refl reading
      (object "a" ∷ object "b" ∷ []) world refl
