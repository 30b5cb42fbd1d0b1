-- ===== src/Storage/Create/Metered.antt =====
-- The requests of a delete worker on `S3Storage` (src/storage/s3/mod.rs), and the tokens of the rate
-- limiter that it takes for them.
use s3rm_rs.Base.{
  ℕ, ◌≤◌, ◌≡◌, refl, sym, subst, Option, some, unwrap_or, String, List, [], ◌∷◌, Result, ok, err,
  length, min, arith,
}
use s3rm_rs.Types.Object
use s3rm_rs.Types.Object.{S3Object}
use s3rm_rs.Types.Error.{Error, SdkError, Operation}
use s3rm_rs.Types.Sdk.{Sdk}
use s3rm_rs.Config.{Config}
use s3rm_rs.Config.Client.{RequestPayer}
use s3rm_rs.Storage.{Storage, ObjectIdentifier, ObjectError, DeleteObjectsOutput}
use s3rm_rs.Storage.S3.{
  RateLimiter, Client, s3_storage, wrapped, exec_rate_limit_objects_per_sec,
  exec_rate_limit_objects_per_sec_n,
}
use s3rm_rs.Stage.{Surroundings}
use s3rm_rs.Deleter.World.{World}
use s3rm_rs.Deleter.Backend.{max_batch_size}
use s3rm_rs.Deleter.Backend.Chunks.{Fits}
use s3rm_rs.Deleter.Backend.Confined.{IsConfined, Answers}
use s3rm_rs.Deleter.Worker.{receive_and_delete}
use s3rm_rs.Deleter.Worker.Confined.{receive_and_delete-Holds}
use s3rm_rs.Deleter.Worker.Requests.{Anything, All-Anything}

-- What a client does: it waits for tokens of a limiter, or asks S3 about some keys.
pub data Moment : Type 0 where
  took : RateLimiter → ℕ → Moment
  asked : ℕ → Moment

abbrev noted : {S A : Type 0} → ℕ → List Moment → S × A → (S × List Moment) × A
noted n log (s, a) = ((s, asked n ∷ log), a)

-- A client that keeps a log of its waits and of its requests about objects, the last first.
abbrev pub metered : Client → Client
metered c = record {
  State = c.State × List Moment;
  acquire = λ l n s. (c.acquire l n s.0, took l n ∷ s.1);
  head_object = λ p b k v s. noted 1 s.1 (c.head_object p b k v s.0);
  get_object_tagging = λ p b k v s. noted 1 s.1 (c.get_object_tagging p b k v s.0);
  delete_object = λ p b k v e s. noted 1 s.1 (c.delete_object p b k v e s.0);
  delete_objects = λ p b ids s. noted (length ids) s.1 (c.delete_objects p b ids s.0);
  get_bucket_versioning =
      λ b s. ((((c.get_bucket_versioning b s.0).0, s.1)), (c.get_bucket_versioning b s.0).1);
}

-- Just before each request, the tokens for its keys are taken, no more than the limiter can hold.
pub data IsMetered (l : RateLimiter) : List Moment → Type 0 where
  nothing : IsMetered l []
  request :
      {n : ℕ} {log : List Moment}
      → 1 ≤ n
      → n ≤ l.max
      → IsMetered l log
      → IsMetered l (asked n ∷ took l n ∷ log)

wrapped-state :
    {S A : Type 0} (op : Operation) (text : String) (answer : S × Result A SdkError)
    → (wrapped op text answer).0 ≡ answer.0
wrapped-state op text (s, ok a) = refl
wrapped-state op text (s, err e) = refl

module _ (client : Client) (payer : Option RequestPayer) (bucket : String) (l : RateLimiter) where
  abbrev storage : Storage
  storage = s3_storage (metered client) payer bucket (some l)

  abbrev Metered : storage.State → Type 0
  Metered s = IsMetered l s.1

  -- The wrapped answer of a request leaves the log of that request.
  wrapped-IsMetered :
      {A : Type 0} (op : Operation) (text : String)
      (answer : (client.State × List Moment) × Result A SdkError)
      → IsMetered l answer.0.1
      → IsMetered l (wrapped op text answer).0.1
  wrapped-IsMetered op text (s, ok a) h = h
  wrapped-IsMetered op text (s, err e) h = h

  batch-IsMetered :
      (limit : ℕ) (ids : List ObjectIdentifier) (s : storage.State)
      → limit ≤ l.max
      → Fits limit ids
      → Metered s
      → Metered (storage.delete_objects ids s).0
  unfolding exec_rate_limit_objects_per_sec_n
  batch-IsMetered limit [] s le fits h = absurd (omega (arith, fits.0))
  batch-IsMetered limit (i ∷ ids) s le fits h =
      wrapped-IsMetered _ _ _ (request fits.0 (omega (arith, le, fits.1)) h)

  answers-Anything :
      (limit : ℕ) (r : Result DeleteObjectsOutput Error) → Answers storage Anything limit r
  answers-Anything limit (ok out) =
      All-Anything (λ (e : ObjectError). unwrap_or e.key "unknown") (λ e. e.version_id) out.errors
  answers-Anything limit (err e) = tt

  storage-IsConfined :
      (limit : ℕ) → 1 ≤ l.max → limit ≤ l.max → IsConfined storage Anything limit Metered
  unfolding exec_rate_limit_objects_per_sec
  storage-IsConfined limit pos le = record {
    head = λ k v s h. wrapped-IsMetered _ _ _ (request (omega arith) pos h);
    tagging = λ k v s h. wrapped-IsMetered _ _ _ (request (omega arith) pos h);
    single = λ k v e s a h. wrapped-IsMetered _ _ _ (request (omega arith) pos h);
    batch = λ ids s a h. batch-IsMetered limit ids s le a.1 h;
    answers = λ ids s a. answers-Anything limit (storage.delete_objects ids s).1;
  }

module _ (x : Sdk) (client : Client) (payer : Option RequestPayer) (bucket : String)
    (l : RateLimiter) (config : Config x) (env : Surroundings)
    (objects : List (S3Object x.DateTime)) where
  -- A delete worker on a storage with this limiter, if it has one, keeps the log metered.
  abbrev Keeps : Option RateLimiter → Type 0
  Keeps limiter =
      (w : World x (s3_storage (metered client) payer bucket limiter))
      → IsMetered l w.target.1
      → IsMetered l
          (receive_and_delete x (s3_storage (metered client) payer bucket limiter) config env
            objects w).0.target.1

  -- The limiter can hold the tokens of the largest request.
  pub receive_and_delete-IsMetered :
      (limiter : Option RateLimiter)
      → limiter ≡ some l
      → 1 ≤ l.max
      → config.batch_size ≤ l.max
      → Keeps limiter
  receive_and_delete-IsMetered limiter e pos le = subst Keeps (sym e) (λ w h.
      (receive_and_delete-Holds x (storage client payer bucket l) config env Anything
        (Metered client payer bucket l)
        (storage-IsConfined client payer bucket l (min config.batch_size max_batch_size) pos
          (omega (arith, le)))
        objects w (All-Anything Object.key Object.version_id objects)
        (h, All-Anything Object.key Object.version_id w.buffer)).0)
