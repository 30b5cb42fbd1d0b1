-- ===== src/Storage/S3/Laws.antt =====
-- What the callers of `S3Storage` (src/storage/s3/mod.rs) find in its errors.
use s3rm_rs.Base.{
  ◌≡◌, refl, ◌||◌, Option, none, some, unwrap_or, String, Result, ok, err, arith, ◌==◌,
}
use s3rm_rs.Types.Error.{
  Error, SdkError, ServiceError, Operation, service, sdk, context, head_object, get_object_tagging,
  delete_object, is_not_found_error, has_not_found_code, extract_delete_object_error_code,
}
use s3rm_rs.Config.Client.{RequestPayer}
use s3rm_rs.Storage.{Storage}
use s3rm_rs.Storage.S3.{RateLimiter, Client, s3_storage, wrapped, exec_rate_limit_objects_per_sec}

abbrev pub Failed : {S A E : Type 0} → S × Result A E → E → Type 0
Failed answer e = answer.1 ≡ err e

unwrap_or-elim :
    (o : Option String)
    → (elim o as (λ _. String) [ none ↦ "unknown" | some code ↦ code ]) ≡ unwrap_or o "unknown"
unwrap_or-elim none = refl
unwrap_or-elim (some code) = refl

wrapped-Failed :
    {S A : Type 0} (op : Operation) (text : String) (answer : S × Result A SdkError) {e : SdkError}
    → Failed answer e
    → Failed (wrapped op text answer) (context text (sdk op e))
wrapped-Failed op text (s, ok a) {e} h = absurd (grind (arith, h))
wrapped-Failed op text (s, err d) {e} h = grind (arith, h)

module _ (client : Client) (payer : Option RequestPayer) (bucket : String)
    (limiter : Option RateLimiter) (s : client.State) (key : String)
    (version_id if_match : Option String) (head tagging delete : ServiceError) where
  abbrev storage : Storage
  storage = s3_storage client payer bucket limiter

  -- The state once the limiter let a single call pass.
  abbrev pub let_in : client.State
  let_in = exec_rate_limit_objects_per_sec client limiter s

  -- A service error of S3 is seen through the context that the storage adds: a HeadObject error is
  -- a missing object just if the SDK calls it so, a GetObjectTagging error by its code or the status
  -- 404, and of a DeleteObject error the code is found, or "unknown" without one.
  pub s3_storage-errors :
      Failed (client.head_object payer bucket key version_id let_in) (service head)
      → Failed (client.get_object_tagging payer bucket key version_id let_in) (service tagging)
      → Failed (client.delete_object payer bucket key version_id if_match let_in) (service delete)
      → ((error : Error) × Failed (storage.head_object key version_id s) error
          × (is_not_found_error error ≡ head.is_not_found))
        × ((error : Error) × Failed (storage.get_object_tagging key version_id s) error
            × (is_not_found_error error
                ≡ (has_not_found_code tagging.code || (tagging.status == 404))))
        × ((error : Error) × Failed (storage.delete_object key version_id if_match s) error
            × (extract_delete_object_error_code error ≡ unwrap_or delete.code "unknown"))
  unfolding is_not_found_error extract_delete_object_error_code
  s3_storage-errors h g d = (
    (_, wrapped-Failed head_object "aws_sdk_s3::client::head_object() failed." _ h, refl),
    (
      _,
      wrapped-Failed get_object_tagging "aws_sdk_s3::client::get_object_tagging() failed." _ g,
      refl,
    ),
    (
      _,
      wrapped-Failed delete_object "aws_sdk_s3::client::delete_object() failed." _ d,
      unwrap_or-elim delete.code,
    ),
  )
