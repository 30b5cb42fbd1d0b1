-- ===== src/Deleter/Worker/Confined.antt =====
-- The keys for which a worker of src/deleter/mod.rs makes delete calls.
use s3rm_rs.Base.{
  min, ℕ, Bool, ◌||◌, Option, none, some, List, [], ◌∷◌, Result, and_then_rule, if_either, suc, leb,
  ◌+◌, ◌%◌, ◌^◌, length,
}
use s3rm_rs.Types.Object.{S3Object}
use s3rm_rs.Types.Error.{Error}
use s3rm_rs.Types.Sdk.{Sdk}
use s3rm_rs.Config.{Config}
use s3rm_rs.Storage.{Storage}
use s3rm_rs.Stage.{Surroundings}
use s3rm_rs.Deleter.World.{World, Action}
use s3rm_rs.Deleter.Backend.{effective_batch_size}
use s3rm_rs.Deleter.Attributes.{apply_head_object_filters, apply_tag_filters}
use s3rm_rs.Deleter.Attributes.Laws.{
  IsReadable, Judges, apply_head_object_filters-Judges, apply_tag_filters-Judges,
}
use s3rm_rs.Deleter.Worker.Flush.{delete_buffered_objects}
use s3rm_rs.Deleter.Worker.Flush.Confined.{delete_buffered_objects-Ok}
use s3rm_rs.Deleter.Backend.{max_batch_size}
use s3rm_rs.Deleter.Backend.Confined.{IsConfined, Allowed, Holds}
use s3rm_rs.Base.{All, String, subst, sym}
use s3rm_rs.Deleter.Worker.{
  check_max_delete, buffer_and_delete, process_object, stop_at_max_delete, check_against,
  count_object, receive_and_delete,
}

module _ (x : Sdk) (t : Storage) (config : Config x) (env : Surroundings)
    (allowed : String → Option String → Type 0) (P : t.State → Type 0)
    (confined : IsConfined t allowed (min config.batch_size max_batch_size) P) where
  abbrev Ok : World x t → Type 0
  Ok = Holds x t P (All (Allowed allowed))

  flush-Ok : (w : World x t) → Ok w → Ok (delete_buffered_objects x t config env w).0
  flush-Ok = delete_buffered_objects-Ok x t config env allowed P confined

  buffer_and_delete-Ok :
      (o : S3Object x.DateTime) (w : World x t)
      → Allowed allowed o
      → Ok w
      → Ok (buffer_and_delete x t config env o w).0
  unfolding buffer_and_delete
  buffer_and_delete-Ok o w a h =
      if_either (λ (m : World x t × Result (Unit {0}) Error). Ok m.0)
        (leb (effective_batch_size x t config) (length (o ∷ w.buffer))) _ _
        (flush-Ok _ (h.0, (a, h.1))) (h.0, (a, h.1))

  check_against-Ok :
      (limit : Option ℕ) (o : S3Object x.DateTime) (w : World x t)
      → Ok w
      → Ok (check_against x t config env limit o w).0
  unfolding stop_at_max_delete
  check_against-Ok none o w h = h
  check_against-Ok (some m) o w h =
      if_either (λ (m : World x t × Result Bool Error). Ok m.0)
        (leb ((w.delete_counter + 1) % 2 ^ 64) m) _ _ h
        (and_then_rule Ok Ok
          (delete_buffered_objects x t config env (count_object x t config env w)) _ (flush-Ok _ h)
          (λ u s h. h) (λ s h. h))

  check_max_delete-Ok :
      (o : S3Object x.DateTime) (w : World x t) → Ok w → Ok (check_max_delete x t config env o w).0
  unfolding check_max_delete
  check_max_delete-Ok o w h = check_against-Ok config.max_delete o w h

  readable : IsReadable x t config P
  readable = record { head = confined.head; tagging = confined.tagging }

  judged-Ok : (w w' : World x t) → Ok w → Judges x t config P w w' → Ok w'
  judged-Ok w w' h j = (j.target, subst (All (Allowed allowed)) (sym j.buffer) h.1)

  process_object-Ok :
      (o : S3Object x.DateTime) (w : World x t)
      → Allowed allowed o
      → Ok w
      → Ok (process_object x t config env o w).0
  unfolding process_object
  process_object-Ok o w a h =
      and_then_rule Ok Ok (apply_head_object_filters x t config o w) _
        (judged-Ok w _ h (apply_head_object_filters-Judges x t config P readable o w h.0))
        (λ skipped w h.
          if_either (λ (m : Action x t (Unit {0})). Ok (m w).0) skipped _ _ h
            (and_then_rule Ok Ok (apply_tag_filters x t config o w) _
              (judged-Ok w _ h (apply_tag_filters-Judges x t config P readable o w h.0))
              (λ skipped w h.
                if_either (λ (m : Action x t (Unit {0})). Ok (m w).0) skipped _ _ h
                  (and_then_rule Ok Ok (check_max_delete x t config env o w) _
                    (check_max_delete-Ok o w h)
                    (λ stopped w h.
                      if_either (λ (m : Action x t (Unit {0})). Ok (m w).0) stopped _ _ h
                        (buffer_and_delete-Ok o w a h))
                    (λ w h. h)))
              (λ w h. h)))
        (λ w h. h)

  -- If the objects that a worker receives, and those in its buffer, are allowed, then what deletes of
  -- allowed keys and reads keep true of the target, the worker keeps true, and its buffer still holds
  -- allowed objects, whatever happens meanwhile, if a batch delete of allowed keys reports errors for
  -- allowed keys alone.
  pub receive_and_delete-Holds :
      (objects : List (S3Object x.DateTime)) (w : World x t)
      → All (Allowed allowed) objects
      → Holds x t P (All (Allowed allowed)) w
      → Holds x t P (All (Allowed allowed)) (receive_and_delete x t config env objects w).0
  unfolding receive_and_delete
  receive_and_delete-Holds [] w a h =
      if_either (λ (m : Action x t (Unit {0})). Ok (m (record w { reads = suc w.reads })).0)
        (w.cancelled || env.is_cancelled w.reads) _ _ h (flush-Ok _ h)
  receive_and_delete-Holds (o ∷ objects) w a h =
      if_either (λ (m : Action x t (Unit {0})). Ok (m (record w { reads = suc w.reads })).0)
        (w.cancelled || env.is_cancelled w.reads) _ _ h
        (and_then_rule Ok Ok (process_object x t config env o _) _ (process_object-Ok o _ a.0 h)
          (λ u w h.
            if_either (λ (m : Action x t (Unit {0})). Ok (m (record w { reads = suc w.reads })).0)
              (w.cancelled || env.is_cancelled w.reads) _ _ h
              (receive_and_delete-Holds objects _ a.1 h))
          (λ w h. h))
