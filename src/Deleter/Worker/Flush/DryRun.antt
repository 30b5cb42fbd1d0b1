-- ===== src/Deleter/Worker/Flush/DryRun.antt =====
-- `delete_buffered_objects` of src/deleter/mod.rs in a dry run.
use s3rm_rs.Base.{
  ◌≡◌, true, ◌||◌, List, [], ◌∷◌, Result, ok, and_then_rule, if_either, if_true, suc,
}
use mathlib.Core.List.{reverse}
use s3rm_rs.Types.Object.{S3Object}
use s3rm_rs.Types.Error.{Error}
use s3rm_rs.Types.Sdk.{Sdk}
use s3rm_rs.Config.{Config}
use s3rm_rs.Storage.{Storage}
use s3rm_rs.Stage.{Surroundings}
use s3rm_rs.Deleter.World.{DeleteResult, World, Action}
use s3rm_rs.Deleter.Worker.Flush.Frame.{report_result-Keeps, finish-Keeps}
use s3rm_rs.Deleter.Worker.Flush.{
  delete_result, dry_run_result, delete_batch, delete_buffered_objects, flush,
}

module _ (x : Sdk) (t : Storage) (config : Config x) (env : Surroundings)
    (P : t.State → Type 0) where
  abbrev Keeps : World x t → Type 0
  Keeps w = P w.target

  abbrev OnTarget : t.State → List (S3Object x.DateTime) → Type 0
  OnTarget s buffer = P s

  module _ (dry : config.dry_run ≡ true) where
    delete_batch-Keeps :
        (batch : List (S3Object x.DateTime)) (w : World x t)
        → Keeps w
        → Keeps (delete_batch x t config env batch w).0
    unfolding delete_batch delete_result
    delete_batch-Keeps batch w h =
        and_then_rule Keeps Keeps (delete_result x t config env batch w) _
          (if_true (λ (m : World x t × Result DeleteResult Error). Keeps m.0) config.dry_run
            (w, ok (dry_run_result x t config batch)) _ dry h)
          (λ r s h.
            finish-Keeps x t config env OnTarget batch r.failed _
              (report_result-Keeps x t config env OnTarget batch r s h))
          (λ s h. h)

    flush-Keeps :
        (buffer : List (S3Object x.DateTime)) (w : World x t)
        → Keeps w
        → Keeps (flush x t config env buffer w).0
    flush-Keeps [] w h = h
    flush-Keeps (o ∷ older) w h =
        if_either (λ (m : Action x t (Unit {0})). Keeps (m (record w { reads = suc w.reads })).0)
          (w.cancelled || env.is_cancelled w.reads) _ _ h
          (delete_batch-Keeps (reverse (o ∷ older)) _ h)

    pub delete_buffered_objects-Keeps :
        (w : World x t) → Keeps w → Keeps (delete_buffered_objects x t config env w).0
    unfolding delete_buffered_objects
    delete_buffered_objects-Keeps w h = flush-Keeps w.buffer w h
