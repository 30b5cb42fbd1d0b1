-- ===== src/Deleter/Backend.antt =====
-- The two deletion backends: src/deleter/batch.rs and src/deleter/single.rs.
pub mod Chunks
pub mod Retry
pub mod Reported
pub mod Fallback
pub mod Accounts
pub mod Meter
pub mod Confined
use s3rm_rs.Base.{
  ℕ, zero, suc, ◌+◌, ◌-◌, min, Bool, true, false, ◌&&◌, Option, none, some, String, List, [], ◌∷◌,
  ◌++◌, map, Result, ok, err, M, ◌>>=◌, ◌>>◌, return, fail, modify, if◌then◌else◌, str_eq,
  opt_str_eq, one_of, unwrap_or, leb,
}
use s3rm_rs.Types.Object
use s3rm_rs.Types.Object.{S3Object}
use s3rm_rs.Types.Stats.{delete_error}
use s3rm_rs.Types.Error.{Error, message, to_string, extract_delete_object_error_code}
use s3rm_rs.Types.Sdk.{Sdk}
use s3rm_rs.Config.{Config}
use s3rm_rs.Storage.{Storage, ObjectIdentifier, DeletedObject, ObjectError, DeleteObjectsOutput}
use s3rm_rs.Deleter.World.{
  DeletedKey, FailedKey, DeleteResult, World, Action, call, attempt, send_stats,
}

abbrev pub max_batch_size : ℕ
max_batch_size = 1000

unfoldable pub is_retryable_error_code : String → Bool
is_retryable_error_code code =
    one_of code
      ("InternalError" ∷ "SlowDown" ∷ "ServiceUnavailable" ∷ "RequestTimeout" ∷ "unknown" ∷ [])

module _ {ℓ} {A : Type ℓ} where
  -- `objects.chunks(n)` for n > 0: `room` is the place left in the chunk under way.
  unfoldable pub chunks_from : ℕ → ℕ → List A → List A → List (List A)
  chunks_from n room chunk [] = chunk ∷ []
  chunks_from n zero chunk (o ∷ objects) = chunk ∷ chunks_from n (n - 1) (o ∷ []) objects
  chunks_from n (suc room) chunk (o ∷ objects) = chunks_from n room (chunk ++ o ∷ []) objects

  unfoldable pub chunks : ℕ → List A → List (List A)
  unfolding chunks_from
  chunks n [] = []
  chunks n (o ∷ objects) = chunks_from n (n - 1) (o ∷ []) objects

module _ {D : Type 0} where
  abbrev has_identity : String → Option String → S3Object D → Bool
  has_identity key version_id object =
      str_eq (Object.key object) key && opt_str_eq (Object.version_id object) version_id

  -- The map from (key, version id) to the object that the code collects, asked for one key: of two
  -- objects with the same key, the later one is in the map.
  unfoldable pub lookup_object : String → Option String → List (S3Object D) → Option (S3Object D)
  unfolding Object.key Object.version_id
  lookup_object key version_id [] = none
  lookup_object key version_id (object ∷ objects) =
      let here = if has_identity key version_id object then some object else none in
      elim (lookup_object key version_id objects) [ some later ↦ some later | none ↦ here ]

  -- `if config.if_match { obj.e_tag() } else { None }`
  abbrev pub if_match_etag : Bool → S3Object D → Option String
  if_match_etag if_match object = if if_match then Object.e_tag object else none

  unfoldable pub identifier : Bool → S3Object D → ObjectIdentifier
  unfolding Object.key Object.version_id Object.e_tag
  identifier if_match object = record {
    key = Object.key object;
    version_id = Object.version_id object;
    e_tag = if_match_etag if_match object;
  }

abbrev pub add_deleted : DeletedKey → DeleteResult → DeleteResult
add_deleted d r = record r { deleted = r.deleted ++ d ∷ [] }

abbrev pub add_failed : FailedKey → DeleteResult → DeleteResult
add_failed f r = record r { failed = r.failed ++ f ∷ [] }

-- `deleted.key().unwrap_or_default()`
abbrev pub deleted_key : DeletedObject → DeletedKey
deleted_key d = record { key = unwrap_or d.key ""; version_id = d.version_id }

abbrev pub no_result : DeleteResult
no_result = record { deleted = []; failed = [] }

module _ (x : Sdk) (t : Storage) (config : Config x) where
  -- The loop of `retry_failed_key_with_single_delete`, with the attempts that are left.
  unfoldable pub retry_attempts :
      ℕ
      → String
      → Option String
      → Option String
      → FailedKey
      → Action x t (Result DeletedKey FailedKey)
  retry_attempts zero key version_id etag failure = return (err failure)
  retry_attempts (suc left) key version_id etag failure = do
    answer ← attempt x t (t.delete_object key version_id etag)
    elim answer [
      | ok _ ↦ return (ok (record { key = key; version_id = version_id }))
      | err _ ↦ retry_attempts left key version_id etag failure
    ]

  -- `retry_failed_key_with_single_delete`: the pauses between the attempts change nothing.
  unfoldable pub retry_failed_key_with_single_delete :
      String
      → Option String
      → Option String
      → String
      → String
      → Action x t (Result DeletedKey FailedKey)
  unfolding retry_attempts
  retry_failed_key_with_single_delete key version_id etag code text =
      retry_attempts (suc config.force_retry_config.force_retry_count) key version_id etag
        (record { key = key; version_id = version_id; error_code = code; error_message = text })

  -- A key that is given up: `DeleteError` is counted, and the failure reported.
  abbrev give_up : FailedKey → DeleteResult → Action x t DeleteResult
  give_up f r = do modify (send_stats x t (delete_error f.key)); return (add_failed f r)

  abbrev settle : Result DeletedKey FailedKey → DeleteResult → Action x t DeleteResult
  settle (ok d) r = return (add_deleted d r)
  settle (err f) r = give_up f r

  -- The ETag for a fallback delete: that of the object with this key in the chunk.
  abbrev fallback_etag : List (S3Object x.DateTime) → String → Option String → Option String
  fallback_etag chunk key version_id =
      if config.if_match
      then elim (lookup_object key version_id chunk) [ none ↦ none | some o ↦ Object.e_tag o ]
      else none

  -- One round of `for err in response.errors()`.
  unfoldable pub handle_error :
      List (S3Object x.DateTime) → ObjectError → DeleteResult → Action x t DeleteResult
  unfolding is_retryable_error_code lookup_object retry_failed_key_with_single_delete Object.e_tag
  handle_error chunk e result =
      let key = unwrap_or e.key "unknown" in
      let version_id = e.version_id in
      let code = unwrap_or e.code "unknown" in
      let text = unwrap_or e.message "no message" in
      if is_retryable_error_code code
      then (do
        r ←
            retry_failed_key_with_single_delete key version_id (fallback_etag chunk key version_id)
              code text
        settle r result)
      else give_up
          (record { key = key; version_id = version_id; error_code = code; error_message = text })
          result

  unfoldable pub handle_errors :
      List (S3Object x.DateTime) → List ObjectError → DeleteResult → Action x t DeleteResult
  unfolding handle_error
  handle_errors chunk [] result = return result
  handle_errors chunk (e ∷ errors) result = do
    result ← handle_error chunk e result
    handle_errors chunk errors result

  -- One round of the loop over the chunks.
  unfoldable pub delete_chunk : List (S3Object x.DateTime) → DeleteResult → Action x t DeleteResult
  unfolding handle_errors identifier
  delete_chunk chunk result = do
    response ← call x t (t.delete_objects (map (identifier config.if_match) chunk))
    handle_errors chunk response.errors
        (record result { deleted = result.deleted ++ map deleted_key response.deleted })

  unfoldable pub delete_chunks :
      List (List (S3Object x.DateTime)) → DeleteResult → Action x t DeleteResult
  unfolding delete_chunk
  delete_chunks [] result = return result
  delete_chunks (chunk ∷ rest) result = do
    result ← delete_chunk chunk result
    delete_chunks rest result

  -- `BatchDeleter::delete`
  unfoldable pub batch_delete : List (S3Object x.DateTime) → Action x t DeleteResult
  unfolding delete_chunks chunks
  batch_delete objects =
      delete_chunks (chunks (min config.batch_size max_batch_size) objects) no_result

  -- `SingleDeleter::delete` of the one object that it is given.
  unfoldable pub single_delete_object : S3Object x.DateTime → Action x t DeleteResult
  unfolding Object.key Object.version_id Object.e_tag extract_delete_object_error_code to_string
  single_delete_object object = do
    let key = Object.key object
    let version_id = Object.version_id object
    answer ← attempt x t (t.delete_object key version_id (if_match_etag config.if_match object))
    elim answer [
      | ok _ ↦
          return
            (record { deleted = (record { key = key; version_id = version_id }) ∷ []; failed = [] })
      | err e ↦
          give_up
            (record {
              key = key;
              version_id = version_id;
              error_code = extract_delete_object_error_code e;
              error_message = to_string e;
            })
            no_result
    ]

  -- `&objects[0]` panics on an empty list, which a worker never gives; the model fails there.
  unfoldable pub single_delete : List (S3Object x.DateTime) → Action x t DeleteResult
  unfolding single_delete_object
  single_delete [] = fail (message "index out of bounds")
  single_delete (object ∷ objects) = single_delete_object object

  -- The backend that `ObjectDeleter::new` chooses.
  unfoldable pub delete : List (S3Object x.DateTime) → Action x t DeleteResult
  unfolding batch_delete single_delete
  delete objects = if leb config.batch_size 1 then single_delete objects else batch_delete objects

  -- `effective_batch_size` of `ObjectDeleter::new`
  unfoldable pub effective_batch_size : ℕ
  effective_batch_size = if leb config.batch_size 1 then 1 else min config.batch_size max_batch_size
