-- ===== src/Deleter/Backend/Meter.antt =====
-- Counting the objects that the backends of src/deleter/batch.rs and single.rs delete.
use mathlib.Core.List.{flatten}
use s3rm_rs.Base.{
  ℕ, zero, suc, ◌+◌, ◌≤◌, ◌≡◌, Option, String, List, [], ◌∷◌, map, length, length-append,
  length-map, Result, ok, err, arith, ap, ◌++◌, and_then, and_then_rule, min, leb, unwrap_or,
  Bool-cases, inl, inr,
}
use s3rm_rs.Types.Object
use s3rm_rs.Types.Object.{S3Object}
use s3rm_rs.Types.Error.{Error}
use s3rm_rs.Types.Sdk.{Sdk}
use s3rm_rs.Config.{Config}
use s3rm_rs.Storage.{Storage, ObjectIdentifier, ObjectError, DeleteObjectsOutput}
use s3rm_rs.Deleter.World.{FailedKey, DeleteResult, World}
use s3rm_rs.Deleter.Backend.{
  retry_attempts, retry_failed_key_with_single_delete, handle_error, handle_errors, delete_chunk,
  deleted_key, no_result, if_match_etag, fallback_etag, delete_chunks, batch_delete, single_delete,
  single_delete_object, delete, identifier, chunks, max_batch_size,
}
use s3rm_rs.Deleter.Backend.Chunks.{flatten-chunks}

abbrev pub successes : Result (Unit {0}) Error → ℕ
successes (ok u) = 1
successes (err e) = 0

abbrev pub errors : Result DeleteObjectsOutput Error → ℕ
errors (ok out) = length out.errors
errors (err e) = 0

-- A count of the objects that the target has deleted so far. Reads delete nothing, a single delete
-- that is refused deletes nothing and one that is not deletes one object at most, and a batch
-- delete spares the keys that it reports as errors.
pub record IsMetered (t : Storage) (deletions : t.State → ℕ) : Type 0 where
  pub head :
      (k : String) (v : Option String) (s : t.State)
      → deletions (t.head_object k v s).0 ≡ deletions s
  pub tagging :
      (k : String) (v : Option String) (s : t.State)
      → deletions (t.get_object_tagging k v s).0 ≡ deletions s
  pub single :
      (k : String) (v e : Option String) (s : t.State)
      → deletions (t.delete_object k v e s).0 ≤ deletions s + successes (t.delete_object k v e s).1
  pub batch :
      (ids : List ObjectIdentifier) (s : t.State)
      → deletions (t.delete_objects ids s).0 + errors (t.delete_objects ids s).1
        ≤ deletions s + length ids

module _ (x : Sdk) (t : Storage) (deletions : t.State → ℕ) where
  -- The target has deleted at most n objects, and the worker's own state is as in the world w0.
  pub record Within (w0 : World x t) (n : ℕ) (w : World x t) : Type 0 where
    pub bounded : deletions w.target ≤ n
    pub buffer : w.buffer ≡ w0.buffer
    pub counter : w.delete_counter ≡ w0.delete_counter
    pub report : w.report ≡ w0.report
    pub cancelled : w.cancelled ≡ w0.cancelled

module _ (x : Sdk) (t : Storage) (deletions : t.State → ℕ) (metered : IsMetered t deletions)
    (config : Config x) (w0 : World x t) where
  abbrev UpTo : ℕ → World x t → Type 0
  UpTo = Within x t deletions w0

  retry_attempts-Within :
      (left : ℕ) (key : String) (version_id etag : Option String) (f : FailedKey) (n : ℕ)
      (w : World x t)
      → UpTo n w
      → UpTo (n + 1) (retry_attempts x t config left key version_id etag f w).0
  unfolding retry_attempts
  retry_attempts-Within zero key version_id etag f n w h = ground arith
  retry_attempts-Within (suc left) key version_id etag f n w h = ground (
    arith,
    metered.single key version_id etag w.target,
    retry_attempts-Within left key version_id etag f n
        (record w { target = (t.delete_object key version_id etag w.target).0 }),
  )

  handle_error-Within :
      (chunk : List (S3Object x.DateTime)) (e : ObjectError) (r : DeleteResult) (n : ℕ)
      (w : World x t)
      → UpTo n w
      → UpTo (n + 1) (handle_error x t config chunk e r w).0
  unfolding handle_error retry_failed_key_with_single_delete
  handle_error-Within chunk e r n w h =
      let key = unwrap_or e.key "unknown" in
      ground (
        arith,
        retry_attempts-Within (suc config.force_retry_config.force_retry_count) key e.version_id
            (fallback_etag x t config chunk key e.version_id)
            (record {
              key = key;
              version_id = e.version_id;
              error_code = unwrap_or e.code "unknown";
              error_message = unwrap_or e.message "no message";
            })
            n w h,
      )

  handle_errors-Within :
      (chunk : List (S3Object x.DateTime)) (es : List ObjectError) (r : DeleteResult) (n : ℕ)
      (w : World x t)
      → UpTo n w
      → UpTo (n + length es) (handle_errors x t config chunk es r w).0
  unfolding handle_errors
  handle_errors-Within chunk [] r n w h = ground arith
  handle_errors-Within chunk (e ∷ es) r n w h =
      and_then_rule (UpTo (n + 1)) (UpTo (n + suc (length es)))
        (handle_error x t config chunk e r w) _ (handle_error-Within chunk e r n w h)
        (λ r' s h. ground (arith, handle_errors-Within chunk es r' (n + 1) s h))
        (λ s h. ground arith)

  chunk_answered :
      (chunk : List (S3Object x.DateTime)) (r : DeleteResult) (n : ℕ) (w : World x t)
      (a : t.State × Result DeleteObjectsOutput Error)
      → UpTo n w
      → deletions a.0 + errors a.1 ≤ deletions w.target + length chunk
      → UpTo
          (n + length chunk)
          (and_then {S = World x t}
            (record w { target = a.0 }, a.1)
            (λ response.
              handle_errors x t config chunk response.errors
                (record r { deleted = r.deleted ++ map deleted_key response.deleted }))).0
  chunk_answered chunk r n w (s, ok out) h le =
      let done = record r { deleted = r.deleted ++ map deleted_key out.deleted } in
      ground
        (arith, handle_errors-Within chunk out.errors done (deletions s) (record w { target = s }))
  chunk_answered chunk r n w (s, err e) h le = ground arith

  delete_chunk-Within :
      (chunk : List (S3Object x.DateTime)) (r : DeleteResult) (n : ℕ) (w : World x t)
      → UpTo n w
      → UpTo (n + length chunk) (delete_chunk x t config chunk r w).0
  unfolding delete_chunk
  delete_chunk-Within chunk r n w h =
      let ids = map (identifier config.if_match) chunk in
      chunk_answered chunk r n w (t.delete_objects ids w.target) h
        (omega (arith, length-map (identifier config.if_match) chunk, metered.batch ids w.target))

  delete_chunks-Within :
      (cs : List (List (S3Object x.DateTime))) (r : DeleteResult) (n : ℕ) (w : World x t)
      → UpTo n w
      → UpTo (n + length (flatten cs)) (delete_chunks x t config cs r w).0
  unfolding delete_chunks flatten
  delete_chunks-Within [] r n w h = ground arith
  delete_chunks-Within (c ∷ cs) r n w h =
      and_then_rule (UpTo (n + length c)) (UpTo (n + length (c ++ flatten cs)))
        (delete_chunk x t config c r w) _ (delete_chunk-Within c r n w h)
        (λ r' s h.
          ground
            (arith, delete_chunks-Within cs r' (n + length c) s h, length-append c (flatten cs)))
        (λ s h. ground (arith, length-append c (flatten cs)))

  batch_delete-Within :
      (objects : List (S3Object x.DateTime)) (n : ℕ) (w : World x t)
      → UpTo n w
      → UpTo (n + length objects) (batch_delete x t config objects w).0
  unfolding batch_delete
  batch_delete-Within objects n w h =
      let size = min config.batch_size max_batch_size in
      rw (ap length (flatten-chunks size objects)) at
        (delete_chunks-Within (chunks size objects) no_result n w h)

  single_delete-Within :
      (o : S3Object x.DateTime) (n : ℕ) (w : World x t)
      → UpTo n w
      → UpTo (n + 1) (single_delete_object x t config o w).0
  unfolding single_delete_object
  single_delete-Within o n w h = ground (
    arith,
    metered.single (Object.key o) (Object.version_id o) (if_match_etag config.if_match o) w.target,
  )

  -- A backend deletes no more objects than it is given, and leaves the worker's own state alone.
  pub delete-Within :
      (objects : List (S3Object x.DateTime)) (n : ℕ) (w : World x t)
      → UpTo n w
      → UpTo (n + length objects) (delete x t config objects w).0
  unfolding delete single_delete
  delete-Within [] n w h = elim (Bool-cases (leb config.batch_size 1)) [
    | inl single ↦ rw single (ground arith)
    | inr many ↦ rw many (batch_delete-Within [] n w h)
  ]
  delete-Within (o ∷ objects) n w h = elim (Bool-cases (leb config.batch_size 1)) [
    | inl single ↦ rw single (ground (arith, single_delete-Within o n w h))
    | inr many ↦ rw many (batch_delete-Within (o ∷ objects) n w h)
  ]
