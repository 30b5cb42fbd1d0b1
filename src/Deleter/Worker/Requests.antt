-- ===== src/Deleter/Worker/Requests.antt =====
-- The DeleteObjects requests of a delete worker (src/deleter/mod.rs with src/deleter/batch.rs).
use s3rm_rs.Base.{ℕ, min, unwrap_or, Option, String, List, [], ◌∷◌, Result, ok, err, All}
use s3rm_rs.Types.Object
use s3rm_rs.Types.Object.{S3Object}
use s3rm_rs.Types.Error.{Error}
use s3rm_rs.Types.Sdk.{Sdk}
use s3rm_rs.Config.{Config}
use s3rm_rs.Storage.{Storage, ObjectIdentifier, ObjectError, DeleteObjectsOutput}
use s3rm_rs.Stage.{Surroundings}
use s3rm_rs.Deleter.World.{World}
use s3rm_rs.Deleter.Backend.{max_batch_size}
use s3rm_rs.Deleter.Backend.Chunks.{Fits}
use s3rm_rs.Deleter.Backend.Confined.{IsConfined, Answers}
use s3rm_rs.Deleter.Worker.{receive_and_delete}
use s3rm_rs.Deleter.Worker.Confined.{receive_and_delete-Holds}

abbrev keep_log :
    {S A : Type 0} → List (List ObjectIdentifier) → S × A → (S × List (List ObjectIdentifier)) × A
keep_log log (s, a) = ((s, log), a)

-- A target that also keeps a log of its DeleteObjects requests.
abbrev pub logged : Storage → Storage
logged t = record {
  State = t.State × List (List ObjectIdentifier);
  head_object = λ k v s. keep_log s.1 (t.head_object k v s.0);
  get_object_tagging = λ k v s. keep_log s.1 (t.get_object_tagging k v s.0);
  delete_object = λ k v e s. keep_log s.1 (t.delete_object k v e s.0);
  delete_objects = λ ids s. keep_log (ids ∷ s.1) (t.delete_objects ids s.0);
  is_versioning_enabled = λ s. keep_log s.1 (t.is_versioning_enabled s.0);
}

abbrev pub Anything : String → Option String → Type 0
Anything k v = Unit

pub All-Anything :
    {A : Type 0} (f : A → String) (g : A → Option String) (xs : List A)
    → All (λ a. Anything (f a) (g a)) xs
All-Anything f g [] = tt
All-Anything f g (a ∷ xs) = (tt, All-Anything f g xs)

module _ (x : Sdk) (t : Storage) (config : Config x) where
  abbrev limit : ℕ
  limit = min config.batch_size max_batch_size

  -- The requests so far have one key at least, and at most the batch size and 1000.
  abbrev pub AreSized : (logged t).State → Type 0
  AreSized s = All (Fits limit) s.1

  answers-Anything : (r : Result DeleteObjectsOutput Error) → Answers (logged t) Anything limit r
  answers-Anything (ok out) =
      All-Anything (λ (e : ObjectError). unwrap_or e.key "unknown") (λ e. e.version_id) out.errors
  answers-Anything (err e) = tt

  logged-IsConfined : IsConfined (logged t) Anything limit AreSized
  logged-IsConfined = record {
    head = λ k v s h. h;
    tagging = λ k v s h. h;
    single = λ k v e s a h. h;
    batch = λ ids s a h. (a.1, h);
    answers = λ ids s a. answers-Anything ((logged t).delete_objects ids s).1;
  }

  -- Whatever a delete worker receives and however S3 answers, each of its DeleteObjects requests has
  -- one key at least, and at most the configured batch size and 1000.
  pub receive_and_delete-AreSized :
      (env : Surroundings) (objects : List (S3Object x.DateTime)) (w : World x (logged t))
      → AreSized w.target
      → AreSized (receive_and_delete x (logged t) config env objects w).0.target
  receive_and_delete-AreSized env objects w h =
      (receive_and_delete-Holds x (logged t) config env Anything AreSized logged-IsConfined objects
        w (All-Anything Object.key Object.version_id objects)
        (h, All-Anything Object.key Object.version_id w.buffer)).0
