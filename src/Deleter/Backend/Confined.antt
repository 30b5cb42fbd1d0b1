-- ===== src/Deleter/Backend/Confined.antt =====
-- The keys for which the backends of src/deleter/batch.rs and single.rs make delete calls.
use mathlib.Core.List.{flatten}
use s3rm_rs.Base.{
  ℕ, zero, suc, sym, subst, Option, String, List, [], ◌∷◌, ◌++◌, map, Result, ok, err, All,
  and_then, and_then_rule, if_either, min, leb, unwrap_or, Bool-cases, inl, inr, ◌≡◌, ◌<◌, false,
  length-map, arith,
}
use s3rm_rs.Types.Object
use s3rm_rs.Types.Object.{S3Object}
use s3rm_rs.Types.Error.{Error}
use s3rm_rs.Types.Sdk.{Sdk}
use s3rm_rs.Config.{Config}
use s3rm_rs.Storage.{Storage, ObjectIdentifier, ObjectError, DeleteObjectsOutput}
use s3rm_rs.Deleter.World.{DeletedKey, FailedKey, DeleteResult, World, Action}
use s3rm_rs.Deleter.Backend.{
  retry_attempts, retry_failed_key_with_single_delete, handle_error, handle_errors, delete_chunk,
  settle, is_retryable_error_code, deleted_key, no_result, delete_chunks, batch_delete,
  single_delete, if_match_etag, single_delete_object, delete, identifier, chunks, max_batch_size,
}
use s3rm_rs.Deleter.Backend.Chunks.{Fits, flatten-chunks, chunks-Fits}

module _ {ℓ κ} {A : Type ℓ} (P : A → Type κ) where
  pub All-append_left : (xs ys : List A) → All P (xs ++ ys) → All P xs
  All-append_left [] ys h = tt
  All-append_left (a ∷ xs) ys h = (h.0, All-append_left xs ys h.1)

  pub All-append_right : (xs ys : List A) → All P (xs ++ ys) → All P ys
  All-append_right [] ys h = h
  All-append_right (a ∷ xs) ys h = All-append_right xs ys h.1

module _ (t : Storage) (allowed : String → Option String → Type 0) (limit : ℕ) where
  -- The keys that a batch delete reports as errors are allowed.
  abbrev pub Answers : Result DeleteObjectsOutput Error → Type 0
  Answers (ok out) =
      All (λ (e : ObjectError). allowed (unwrap_or e.key "unknown") e.version_id) out.errors
  Answers (err e) = Unit

  -- A batch delete of allowed keys: one at least, and no more than the limit.
  abbrev pub Requested : List ObjectIdentifier → Type 0
  Requested ids = All (λ (i : ObjectIdentifier). allowed i.key i.version_id) ids × Fits limit ids

  -- A property of the target that reads keep, and deletes of allowed keys; a batch delete of allowed
  -- keys reports errors for such keys alone.
  pub record IsConfined (P : t.State → Type 0) : Type 0 where
    pub head : (k : String) (v : Option String) (s : t.State) → P s → P (t.head_object k v s).0
    pub tagging :
        (k : String) (v : Option String) (s : t.State) → P s → P (t.get_object_tagging k v s).0
    pub single :
        (k : String) (v e : Option String) (s : t.State)
        → allowed k v
        → P s
        → P (t.delete_object k v e s).0
    pub batch :
        (ids : List ObjectIdentifier) (s : t.State)
        → Requested ids
        → P s
        → P (t.delete_objects ids s).0
    pub answers :
        (ids : List ObjectIdentifier) (s : t.State)
        → Requested ids
        → Answers (t.delete_objects ids s).1

-- The identity of an object is allowed.
abbrev pub Allowed : {D : Type 0} → (String → Option String → Type 0) → S3Object D → Type 0
Allowed allowed o = allowed (Object.key o) (Object.version_id o)

-- The target has a property, and so has the worker's buffer another.
abbrev pub Holds :
    (x : Sdk) (t : Storage)
    → (t.State → Type 0)
    → (List (S3Object x.DateTime) → Type 0)
    → World x t
    → Type 0
Holds x t P Q w = P w.target × Q w.buffer

module _ (x : Sdk) (t : Storage) (config : Config x) (allowed : String → Option String → Type 0)
    (P : t.State → Type 0)
    (confined : IsConfined t allowed (min config.batch_size max_batch_size) P)
    (Q : List (S3Object x.DateTime) → Type 0) where
  abbrev Ok : World x t → Type 0
  Ok = Holds x t P Q

  abbrev Fallback : Type 0
  Fallback = Action x t (Result DeletedKey FailedKey)

  attempt-Ok :
      (r : Result (Unit {0}) Error) (good bad : Fallback) (w : World x t)
      → Ok (good w).0
      → Ok (bad w).0
      → Ok ((elim r as (λ _. Fallback) [ ok _ ↦ good | err _ ↦ bad ]) w).0
  attempt-Ok (ok u) good bad w p q = p
  attempt-Ok (err e) good bad w p q = q

  retry_attempts-Ok :
      (left : ℕ) (key : String) (version_id etag : Option String) (f : FailedKey) (w : World x t)
      → allowed key version_id
      → Ok w
      → Ok (retry_attempts x t config left key version_id etag f w).0
  unfolding retry_attempts
  retry_attempts-Ok zero key version_id etag f w a h = h
  retry_attempts-Ok (suc left) key version_id etag f w a h =
      let w' = record w { target = (t.delete_object key version_id etag w.target).0 } in
      let h' : Ok w' = (confined.single key version_id etag w.target a h.0, h.1) in
      attempt-Ok (t.delete_object key version_id etag w.target).1 _
        (retry_attempts x t config left key version_id etag f) w' h'
        (retry_attempts-Ok left key version_id etag f w' a h')

  settle-Ok :
      (a : Result DeletedKey FailedKey) (r : DeleteResult) (w : World x t)
      → Ok w
      → Ok (settle x t config a r w).0
  settle-Ok (ok d) r w h = h
  settle-Ok (err f) r w h = h

  handle_error-Ok :
      (chunk : List (S3Object x.DateTime)) (e : ObjectError) (r : DeleteResult) (w : World x t)
      → allowed (unwrap_or e.key "unknown") e.version_id
      → Ok w
      → Ok (handle_error x t config chunk e r w).0
  unfolding handle_error retry_failed_key_with_single_delete
  handle_error-Ok chunk e r w a h =
      if_either (λ (m : Action x t DeleteResult). Ok (m w).0)
        (is_retryable_error_code (unwrap_or e.code "unknown")) _ _
        (and_then_rule Ok Ok _ (λ a. settle x t config a r)
          (retry_attempts-Ok (suc config.force_retry_config.force_retry_count)
            (unwrap_or e.key "unknown") e.version_id _ _ w a h)
          (λ a w h. settle-Ok a r w h) (λ w h. h))
        h

  handle_errors-Ok :
      (chunk : List (S3Object x.DateTime)) (es : List ObjectError) (r : DeleteResult)
      (w : World x t)
      → All (λ (e : ObjectError). allowed (unwrap_or e.key "unknown") e.version_id) es
      → Ok w
      → Ok (handle_errors x t config chunk es r w).0
  unfolding handle_errors
  handle_errors-Ok chunk [] r w a h = h
  handle_errors-Ok chunk (e ∷ es) r w a h =
      and_then_rule Ok Ok (handle_error x t config chunk e r w) (handle_errors x t config chunk es)
        (handle_error-Ok chunk e r w a.0 h) (λ r w h. handle_errors-Ok chunk es r w a.1 h)
        (λ w h. h)

  answered-Ok :
      (chunk : List (S3Object x.DateTime)) (r : DeleteResult) (w : World x t)
      (a : Result DeleteObjectsOutput Error)
      → Answers t allowed (min config.batch_size max_batch_size) a
      → Ok w
      → Ok
          (and_then
            (w, a)
            (λ response.
              handle_errors x t config chunk response.errors
                (record r { deleted = r.deleted ++ map deleted_key response.deleted }))).0
  answered-Ok chunk r w (ok out) a h = handle_errors-Ok chunk out.errors _ w a h
  answered-Ok chunk r w (err e) a h = h

  requested :
      (chunk : List (S3Object x.DateTime))
      → All (Allowed allowed) chunk
      → All
          (λ (i : ObjectIdentifier). allowed i.key i.version_id)
          (map (identifier config.if_match) chunk)
  unfolding identifier
  requested [] h = tt
  requested (o ∷ chunk) h = (h.0, requested chunk h.1)

  requested-Fits :
      (chunk : List (S3Object x.DateTime)) (n : ℕ)
      → Fits n chunk
      → Fits n (map (identifier config.if_match) chunk)
  requested-Fits chunk n h =
      let same = length-map (identifier config.if_match) chunk in
      (omega (arith, same, h.0), omega (arith, same, h.1))

  delete_chunk-Ok :
      (chunk : List (S3Object x.DateTime)) (r : DeleteResult) (w : World x t)
      → All (Allowed allowed) chunk
      → Fits (min config.batch_size max_batch_size) chunk
      → Ok w
      → Ok (delete_chunk x t config chunk r w).0
  unfolding delete_chunk
  delete_chunk-Ok chunk r w a size h =
      let ids = map (identifier config.if_match) chunk in
      let asked : Requested t allowed (min config.batch_size max_batch_size) ids =
        (requested chunk a, requested-Fits chunk _ size) in
      answered-Ok chunk r _ (t.delete_objects ids w.target).1 (confined.answers ids w.target asked)
        (confined.batch ids w.target asked h.0, h.1)

  delete_chunks-Ok :
      (cs : List (List (S3Object x.DateTime))) (r : DeleteResult) (w : World x t)
      → All (Allowed allowed) (flatten cs)
      → All (Fits (min config.batch_size max_batch_size)) cs
      → Ok w
      → Ok (delete_chunks x t config cs r w).0
  unfolding delete_chunks flatten
  delete_chunks-Ok [] r w a sizes h = h
  delete_chunks-Ok (c ∷ cs) r w a sizes h =
      and_then_rule Ok Ok (delete_chunk x t config c r w) (delete_chunks x t config cs)
        (delete_chunk-Ok c r w (All-append_left (Allowed allowed) c (flatten cs) a) sizes.0 h)
        (λ r w h.
          delete_chunks-Ok cs r w (All-append_right (Allowed allowed) c (flatten cs) a) sizes.1 h)
        (λ w h. h)

  single_answered-Ok :
      (r : Result (Unit {0}) Error) (good : Action x t DeleteResult)
      (bad : Error → Action x t DeleteResult) (w : World x t)
      → Ok (good w).0
      → ((e : Error) → Ok (bad e w).0)
      → Ok ((elim r as (λ _. Action x t DeleteResult) [ ok _ ↦ good | err e ↦ bad e ]) w).0
  single_answered-Ok (ok u) good bad w p q = p
  single_answered-Ok (err e) good bad w p q = q e

  single_delete-Ok :
      (objects : List (S3Object x.DateTime)) (w : World x t)
      → All (Allowed allowed) objects
      → Ok w
      → Ok (single_delete x t config objects w).0
  unfolding single_delete single_delete_object
  single_delete-Ok [] w a h = h
  single_delete-Ok (o ∷ objects) w a h =
      let after : Ok (record w {
        target =
            (t.delete_object (Object.key o) (Object.version_id o) (if_match_etag config.if_match o)
              w.target).0;
      }) =
        (confined.single _ _ _ w.target a.0 h.0, h.1) in
      single_answered-Ok
        (t.delete_object (Object.key o) (Object.version_id o) (if_match_etag config.if_match o)
          w.target).1
        _ _ _ after (λ e. after)

  -- A backend that is given allowed objects keeps the property of the target and leaves the buffer.
  pub delete-Ok :
      (objects : List (S3Object x.DateTime)) (w : World x t)
      → All (Allowed allowed) objects
      → Ok w
      → Ok (delete x t config objects w).0
  unfolding delete batch_delete
  delete-Ok objects w a h = elim (Bool-cases (leb config.batch_size 1)) [
    | inl one ↦ rw one (single_delete-Ok objects w a h)
    | inr several ↦ rw several (
        delete_chunks-Ok (chunks size objects) no_result w
          (subst (All (Allowed allowed)) (sym (flatten-chunks size objects)) a)
          (chunks-Fits size objects (size-positive several)) h)
  ]
    where
      size : ℕ
      size = min config.batch_size max_batch_size

      size-positive : leb config.batch_size 1 ≡ false → 0 < min config.batch_size max_batch_size
      size-positive several = ground arith
