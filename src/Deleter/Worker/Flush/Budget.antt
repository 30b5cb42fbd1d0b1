-- ===== src/Deleter/Worker/Flush/Budget.antt =====
-- Counting what `delete_buffered_objects` of src/deleter/mod.rs deletes.
use mathlib.Core.List.{reverse, reverse-cons}
use s3rm_rs.Base.{
  ℕ, suc, ◌+◌, ◌≤◌, ◌≡◌, refl, ap, true, List, [], ◌∷◌, length, length-append, Result, ok, err,
  for_each_rule, and_then_rule, arith, Bool-cases, inl, inr, ◌||◌,
}
use s3rm_rs.Types.Object.{S3Object}
use s3rm_rs.Types.Error.{Error}
use s3rm_rs.Types.Sdk.{Sdk}
use s3rm_rs.Config.{Config}
use s3rm_rs.Storage.{Storage}
use s3rm_rs.Stage.{Surroundings, SendResult, success, closed}
use s3rm_rs.Stage
use s3rm_rs.Deleter.World.{DeletedKey, FailedKey, DeleteResult, World, Action, send, record_sent}
use s3rm_rs.Deleter.Backend.{delete}
use s3rm_rs.Deleter.Backend.Meter.{IsMetered, Within, delete-Within}
use s3rm_rs.Deleter.Worker.Flush.{
  unless_closed, report_deleted, report_failed, report_result, forward, finish, cancel_on_error,
  delete_result, delete_batch, delete_buffered_objects, flush,
}

pub length-reverse {ℓ} : {A : Type ℓ} (xs : List A) → length (reverse xs) ≡ length xs
length-reverse [] = refl
length-reverse (a ∷ xs) =
    omega
      (arith, ap length (reverse-cons a xs), length-append (reverse xs) (a ∷ []), length-reverse xs)

module _ (x : Sdk) (t : Storage) (deletions : t.State → ℕ) where
  -- The counter stands at c, and what the target has deleted and may yet be told to delete by this
  -- worker is at most n.
  pub record Budget (c n : ℕ) (w : World x t) : Type 0 where
    pub counter : w.delete_counter ≡ c
    pub spent : deletions w.target + length w.buffer ≤ n

  module _ (metered : IsMetered t deletions) (config : Config x) (env : Surroundings)
      (c n : ℕ) where
    abbrev Ok : World x t → Type 0
    Ok = Budget c n

    report_result-Budget :
        (batch : List (S3Object x.DateTime)) (r : DeleteResult) (w : World x t)
        → Ok w
        → Ok (report_result x t config batch r w)
    unfolding report_result
    report_result-Budget batch r w h =
        for_each_rule Ok _ failed r.failed _ (for_each_rule Ok _ deleted r.deleted w h)
      where
        failed : (k : FailedKey) (w : World x t) → Ok w → Ok (report_failed x t config k w)
        failed k w h = ground arith

        deleted : (k : DeletedKey) (w : World x t) → Ok w → Ok (report_deleted x t config batch k w)
        deleted k w h = ground arith

    record_sent-Budget :
        (o : S3Object x.DateTime) (r : Result SendResult Error) (w : World x t)
        → Ok w
        → Ok (record_sent x t env o r w).0
    record_sent-Budget o (ok success) w h = ground arith
    record_sent-Budget o (ok closed) w h = h
    record_sent-Budget o (err e) w h = h

    unless_closed-Budget :
        (r : SendResult) (rest : Action x t (Unit {0})) (w : World x t)
        → Ok w
        → Ok (rest w).0
        → Ok (unless_closed x t config env r rest w).0
    unless_closed-Budget success rest w h k = k
    unless_closed-Budget closed rest w h k = h

    forward-Budget :
        (batch : List (S3Object x.DateTime)) (w : World x t)
        → Ok w
        → Ok (forward x t config env batch w).0
    unfolding forward
    forward-Budget [] w h = h
    forward-Budget (o ∷ batch) w h =
        and_then_rule Ok Ok (send x t env o w) _
          (record_sent-Budget o (Stage.send env w.sends) (record w { sends = suc w.sends })
            (ground arith))
          (λ r s h.
            unless_closed-Budget r (forward x t config env batch) s h (forward-Budget batch s h))
          (λ s h. h)

    finish-Budget :
        (batch : List (S3Object x.DateTime)) (failed : List FailedKey) (w : World x t)
        → Ok w
        → Ok (finish x t config env batch failed w).0
    unfolding finish
    finish-Budget batch [] w h = forward-Budget batch w h
    finish-Budget batch (f ∷ failed) w h =
        ground (arith, forward-Budget batch (record w { has_warning = true }))

    cancel_on_error-Budget :
        (m : World x t × Result DeleteResult Error)
        → Ok m.0
        → Ok (cancel_on_error x t config env m).0
    cancel_on_error-Budget (w, ok r) h = h
    cancel_on_error-Budget (w, err e) h = ground arith

    delete_result-Budget :
        (batch : List (S3Object x.DateTime)) (w : World x t)
        → w.buffer ≡ []
        → w.delete_counter ≡ c
        → deletions w.target + length batch ≤ n
        → Ok (delete_result x t config env batch w).0
    unfolding delete_result
    delete_result-Budget batch w empty count le = elim (Bool-cases config.dry_run) [
      | inl dry ↦ rw dry (ground arith)
      | inr real ↦ rw real (
          cancel_on_error-Budget (delete x t config batch w) (
            let after : Within x t deletions w (deletions w.target + length batch)
                (delete x t config batch w).0 =
              delete-Within x t deletions metered config w batch (deletions w.target) w
                (ground arith) in
            ground arith))
    ]

    delete_batch-Budget :
        (batch : List (S3Object x.DateTime)) (w : World x t)
        → w.buffer ≡ []
        → w.delete_counter ≡ c
        → deletions w.target + length batch ≤ n
        → Ok (delete_batch x t config env batch w).0
    unfolding delete_batch
    delete_batch-Budget batch w empty count le =
        and_then_rule Ok Ok (delete_result x t config env batch w) _
          (delete_result-Budget batch w empty count le)
          (λ r s h. finish-Budget batch r.failed _ (report_result-Budget batch r s h)) (λ s h. h)

    flush-Budget :
        (buffer : List (S3Object x.DateTime)) (w : World x t)
        → w.buffer ≡ buffer
        → Ok w
        → Ok (flush x t config env buffer w).0
    flush-Budget [] w e h = h
    flush-Budget (o ∷ older) w e h = elim (Bool-cases (w.cancelled || env.is_cancelled w.reads)) [
      | inl gone ↦ rw gone (ground arith)
      | inr live ↦ rw live (
          delete_batch-Budget (reverse (o ∷ older)) _ refl (ground arith)
            (ground (arith, length-reverse (o ∷ older))))
    ]

    pub delete_buffered_objects-Budget :
        (w : World x t) → Ok w → Ok (delete_buffered_objects x t config env w).0
    unfolding delete_buffered_objects
    delete_buffered_objects-Budget w h = flush-Budget w.buffer w refl h
