-- ===== src/Deleter/Worker/Flush/Confined.antt =====
-- The keys for which `delete_buffered_objects` of src/deleter/mod.rs makes delete calls.
use mathlib.Core.List.{reverse, reverse-cons}
use s3rm_rs.Base.{
  min, sym, subst, ◌||◌, Option, String, List, [], ◌∷◌, ◌++◌, Result, ok, err, All, and_then_rule,
  if_either, suc,
}
use s3rm_rs.Types.Object.{S3Object}
use s3rm_rs.Types.Error.{Error}
use s3rm_rs.Types.Sdk.{Sdk}
use s3rm_rs.Config.{Config}
use s3rm_rs.Storage.{Storage}
use s3rm_rs.Stage.{Surroundings}
use s3rm_rs.Deleter.World.{DeleteResult, World, Action}
use s3rm_rs.Deleter.Backend.{delete, max_batch_size}
use s3rm_rs.Deleter.Backend.Confined.{IsConfined, Allowed, Holds, delete-Ok}
use s3rm_rs.Deleter.Worker.Flush.Frame.{report_result-Keeps, finish-Keeps}
use s3rm_rs.Deleter.Worker.Flush.{
  delete_result, dry_run_result, cancel_on_error, delete_batch, delete_buffered_objects, flush,
}

module _ {ℓ κ} {A : Type ℓ} (P : A → Type κ) where
  All-append : (xs ys : List A) → All P xs → All P ys → All P (xs ++ ys)
  All-append [] ys h k = k
  All-append (a ∷ xs) ys h k = (h.0, All-append xs ys h.1 k)

  All-reverse : (xs : List A) → All P xs → All P (reverse xs)
  All-reverse [] h = tt
  All-reverse (a ∷ xs) h =
      subst (All P) (sym (reverse-cons a xs))
        (All-append (reverse xs) (a ∷ []) (All-reverse xs h.1) (h.0, tt))

module _ (x : Sdk) (t : Storage) (config : Config x) (env : Surroundings)
    (allowed : String → Option String → Type 0) (P : t.State → Type 0)
    (confined : IsConfined t allowed (min config.batch_size max_batch_size) P) where
  abbrev Fine : List (S3Object x.DateTime) → Type 0
  Fine = All (Allowed allowed)

  abbrev Ok : World x t → Type 0
  Ok = Holds x t P Fine

  abbrev State : t.State → List (S3Object x.DateTime) → Type 0
  State s buffer = P s × Fine buffer

  cancel_on_error-Ok :
      (m : World x t × Result DeleteResult Error) → Ok m.0 → Ok (cancel_on_error x t config env m).0
  cancel_on_error-Ok (w, ok r) h = h
  cancel_on_error-Ok (w, err e) h = h

  delete_batch-Ok :
      (batch : List (S3Object x.DateTime)) (w : World x t)
      → Fine batch
      → Ok w
      → Ok (delete_batch x t config env batch w).0
  unfolding delete_batch delete_result
  delete_batch-Ok batch w a h =
      and_then_rule Ok Ok (delete_result x t config env batch w) _
        (if_either (λ (m : World x t × Result DeleteResult Error). Ok m.0) config.dry_run
          (w, ok (dry_run_result x t config batch)) _ h
          (cancel_on_error-Ok (delete x t config batch w)
            (delete-Ok x t config allowed P confined Fine batch w a h)))
        (λ r s h.
          finish-Keeps x t config env State batch r.failed _
            (report_result-Keeps x t config env State batch r s h))
        (λ s h. h)

  flush-Ok :
      (buffer : List (S3Object x.DateTime)) (w : World x t)
      → Fine buffer
      → Ok w
      → Ok (flush x t config env buffer w).0
  flush-Ok [] w a h = h
  flush-Ok (o ∷ older) w a h =
      if_either (λ (m : Action x t (Unit {0})). Ok (m (record w { reads = suc w.reads })).0)
        (w.cancelled || env.is_cancelled w.reads) _ _ h
        (delete_batch-Ok (reverse (o ∷ older)) _ (All-reverse (Allowed allowed) (o ∷ older) a)
          (h.0, tt))

  pub delete_buffered_objects-Ok :
      (w : World x t) → Ok w → Ok (delete_buffered_objects x t config env w).0
  unfolding delete_buffered_objects
  delete_buffered_objects-Ok w h = flush-Ok w.buffer w h.1 h
