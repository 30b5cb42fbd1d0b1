-- ===== src/Deleter/Worker/DryRun.antt =====
-- A worker of src/deleter/mod.rs in a dry run.
use s3rm_rs.Base.{
  ℕ, ◌≡◌, Bool, true, ◌||◌, Option, none, some, List, [], ◌∷◌, Result, and_then_rule, if_either,
  suc, leb, ◌+◌, ◌%◌, ◌^◌, length,
}
use s3rm_rs.Types.Object.{S3Object}
use s3rm_rs.Types.Error.{Error}
use s3rm_rs.Types.Sdk.{Sdk}
use s3rm_rs.Config.{Config}
use s3rm_rs.Storage.{Storage}
use s3rm_rs.Stage.{Surroundings}
use s3rm_rs.Deleter.World.{World, Action}
use s3rm_rs.Deleter.Backend.{effective_batch_size}
use s3rm_rs.Deleter.Attributes.{apply_head_object_filters, apply_tag_filters}
use s3rm_rs.Deleter.Attributes.Laws.{
  IsReadable, Judges, apply_head_object_filters-Judges, apply_tag_filters-Judges,
}
use s3rm_rs.Deleter.Worker.Flush.{delete_buffered_objects}
use s3rm_rs.Deleter.Worker.Flush.DryRun.{delete_buffered_objects-Keeps}
use s3rm_rs.Deleter.Worker.{
  check_max_delete, buffer_and_delete, process_object, stop_at_max_delete, check_against,
  count_object, receive_and_delete,
}

module _ (x : Sdk) (t : Storage) (config : Config x) (env : Surroundings)
    (P : t.State → Type 0) where
  abbrev Keeps : World x t → Type 0
  Keeps w = P w.target

  module _ (dry : config.dry_run ≡ true) where
    flush-Keeps : (w : World x t) → Keeps w → Keeps (delete_buffered_objects x t config env w).0
    flush-Keeps = delete_buffered_objects-Keeps x t config env P dry

    buffer_and_delete-Keeps :
        (o : S3Object x.DateTime) (w : World x t)
        → Keeps w
        → Keeps (buffer_and_delete x t config env o w).0
    unfolding buffer_and_delete
    buffer_and_delete-Keeps o w h =
        if_either (λ (m : World x t × Result (Unit {0}) Error). Keeps m.0)
          (leb (effective_batch_size x t config) (length (o ∷ w.buffer))) _ _ (flush-Keeps _ h) h

    check_against-Keeps :
        (limit : Option ℕ) (o : S3Object x.DateTime) (w : World x t)
        → Keeps w
        → Keeps (check_against x t config env limit o w).0
    unfolding stop_at_max_delete
    check_against-Keeps none o w h = h
    check_against-Keeps (some m) o w h =
        if_either (λ (m : World x t × Result Bool Error). Keeps m.0)
          (leb ((w.delete_counter + 1) % 2 ^ 64) m) _ _ h
          (and_then_rule Keeps Keeps
            (delete_buffered_objects x t config env (count_object x t config env w)) _
            (flush-Keeps _ h) (λ u s h. h) (λ s h. h))

    check_max_delete-Keeps :
        (o : S3Object x.DateTime) (w : World x t)
        → Keeps w
        → Keeps (check_max_delete x t config env o w).0
    unfolding check_max_delete
    check_max_delete-Keeps o w h = check_against-Keeps config.max_delete o w h

    module _ (readable : IsReadable x t config P) where
      process_object-Keeps :
          (o : S3Object x.DateTime) (w : World x t)
          → Keeps w
          → Keeps (process_object x t config env o w).0
      unfolding process_object
      process_object-Keeps o w h =
          and_then_rule Keeps Keeps (apply_head_object_filters x t config o w) _
            (Judges.target (apply_head_object_filters-Judges x t config P readable o w h))
            (λ skipped w h.
              if_either (λ (m : Action x t (Unit {0})). Keeps (m w).0) skipped _ _ h
                (and_then_rule Keeps Keeps (apply_tag_filters x t config o w) _
                  (Judges.target (apply_tag_filters-Judges x t config P readable o w h))
                  (λ skipped w h.
                    if_either (λ (m : Action x t (Unit {0})). Keeps (m w).0) skipped _ _ h
                      (and_then_rule Keeps Keeps (check_max_delete x t config env o w) _
                        (check_max_delete-Keeps o w h)
                        (λ stopped w h.
                          if_either (λ (m : Action x t (Unit {0})). Keeps (m w).0) stopped _ _ h
                            (buffer_and_delete-Keeps o w h))
                        (λ w h. h)))
                  (λ w h. h)))
            (λ w h. h)

      -- What reading from the target keeps, a worker of a dry run keeps: it makes no call of
      -- DeleteObject or DeleteObjects, whatever objects it receives and whatever happens meanwhile.
      pub receive_and_delete-dry_run :
          (objects : List (S3Object x.DateTime)) (w : World x t)
          → P w.target
          → P (receive_and_delete x t config env objects w).0.target
      unfolding receive_and_delete
      receive_and_delete-dry_run [] w h =
          if_either (λ (m : Action x t (Unit {0})). Keeps (m (record w { reads = suc w.reads })).0)
            (w.cancelled || env.is_cancelled w.reads) _ _ h (flush-Keeps _ h)
      receive_and_delete-dry_run (o ∷ objects) w h =
          if_either (λ (m : Action x t (Unit {0})). Keeps (m (record w { reads = suc w.reads })).0)
            (w.cancelled || env.is_cancelled w.reads) _ _ h
            (and_then_rule Keeps Keeps (process_object x t config env o _) _
              (process_object-Keeps o _ h)
              (λ u w h.
                if_either
                  (λ (m : Action x t (Unit {0})). Keeps (m (record w { reads = suc w.reads })).0)
                  (w.cancelled || env.is_cancelled w.reads) _ _ h
                  (receive_and_delete-dry_run objects _ h))
              (λ w h. h))
