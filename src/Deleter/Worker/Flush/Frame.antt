-- ===== src/Deleter/Worker/Flush/Frame.antt =====
-- What follows the backend in `delete_buffered_objects` of src/deleter/mod.rs, and the state that it
-- does not touch.
use s3rm_rs.Base.{true, List, [], ◌∷◌, Result, ok, err, for_each_rule, and_then_rule, if_either}
use s3rm_rs.Types.Object.{S3Object}
use s3rm_rs.Types.Error.{Error}
use s3rm_rs.Types.Sdk.{Sdk}
use s3rm_rs.Config.{Config}
use s3rm_rs.Storage.{Storage}
use s3rm_rs.Stage.{Surroundings, SendResult, success, closed}
use s3rm_rs.Stage
use s3rm_rs.Deleter.World.{FailedKey, DeleteResult, World, Action, send, record_sent}
use s3rm_rs.Deleter.Worker.Flush.{
  unless_closed, report_deleted, report_failed, report_result, forward, finish,
}

module _ (x : Sdk) (t : Storage) (config : Config x) (env : Surroundings)
    (R : t.State → List (S3Object x.DateTime) → Type 0) where
  abbrev pub Keeps : World x t → Type 0
  Keeps w = R w.target w.buffer

  pub report_result-Keeps :
      (batch : List (S3Object x.DateTime)) (r : DeleteResult) (w : World x t)
      → Keeps w
      → Keeps (report_result x t config batch r w)
  unfolding report_result report_deleted report_failed
  report_result-Keeps batch r w h =
      for_each_rule Keeps (report_failed x t config) (λ k w h. h) r.failed _
        (for_each_rule Keeps (report_deleted x t config batch) (λ k w h. h) r.deleted w h)

  record_sent-Keeps :
      (o : S3Object x.DateTime) (r : Result SendResult Error) (w : World x t)
      → Keeps w
      → Keeps (record_sent x t env o r w).0
  record_sent-Keeps o (ok success) w h = h
  record_sent-Keeps o (ok closed) w h = h
  record_sent-Keeps o (err e) w h = h

  unless_closed-Keeps :
      (r : SendResult) (rest : Action x t (Unit {0})) (w : World x t)
      → Keeps w
      → Keeps (rest w).0
      → Keeps (unless_closed x t config env r rest w).0
  unless_closed-Keeps success rest w h k = k
  unless_closed-Keeps closed rest w h k = h

  forward-Keeps :
      (batch : List (S3Object x.DateTime)) (w : World x t)
      → Keeps w
      → Keeps (forward x t config env batch w).0
  unfolding forward
  forward-Keeps [] w h = h
  forward-Keeps (o ∷ batch) w h =
      and_then_rule Keeps Keeps (send x t env o w) _
        (record_sent-Keeps o (Stage.send env w.sends) _ h)
        (λ r s h.
          unless_closed-Keeps r (forward x t config env batch) s h (forward-Keeps batch s h))
        (λ s h. h)

  pub finish-Keeps :
      (batch : List (S3Object x.DateTime)) (failed : List FailedKey) (w : World x t)
      → Keeps w
      → Keeps (finish x t config env batch failed w).0
  unfolding finish
  finish-Keeps batch [] w h = forward-Keeps batch w h
  finish-Keeps batch (f ∷ failed) w h =
      if_either (λ (m : Action x t (Unit {0})). Keeps (m (record w { has_warning = true })).0)
        config.warn_as_error _ (forward x t config env batch) h (forward-Keeps batch _ h)
