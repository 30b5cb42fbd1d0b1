-- ===== src/Deleter/Backend/Retry.antt =====
-- The fallback of a batch delete (src/deleter/batch.rs): single deletes of one key.
use s3rm_rs.Base.{
  ℕ, zero, suc, ◌+◌, ◌≤◌, ◌≡◌, refl, Option, String, Result, ok, err, arith, Bool, true, false,
}
use s3rm_rs.Types.Error.{Error}
use s3rm_rs.Types.Sdk.{Sdk}
use s3rm_rs.Config.{Config}
use s3rm_rs.Storage.{Storage}
use s3rm_rs.Deleter.World.{DeletedKey, FailedKey, World}
use s3rm_rs.Deleter.Backend.{retry_attempts, retry_failed_key_with_single_delete}

module _ (x : Sdk) (t : Storage) (key : String) (version_id etag : Option String) where
  abbrev pub call_once : t.State → t.State × Result (Unit {0}) Error
  call_once = t.delete_object key version_id etag

  -- The target after n single deletes.
  abbrev pub after_calls : ℕ → t.State → t.State
  after_calls zero s = s
  after_calls (suc n) s = after_calls n (call_once s).0

  abbrev pub is_ok : Result (Unit {0}) Error → Bool
  is_ok (ok u) = true
  is_ok (err e) = false

  -- The first n single deletes all fail.
  abbrev pub FailsFor : ℕ → t.State → Type 0
  FailsFor zero s = Unit
  FailsFor (suc n) s = (is_ok (call_once s).1 ≡ false) × FailsFor n (call_once s).0

  abbrev pub deleted : DeletedKey
  deleted = record { key = key; version_id = version_id }

  retry_attempts_succeed :
      (config : Config x) (failure : FailedKey) (n left : ℕ) (w : World x t)
      → FailsFor n w.target
      → is_ok (call_once (after_calls n w.target)).1 ≡ true
      → n + 1 ≤ left
      → retry_attempts x t config left key version_id etag failure w
        ≡ (record w { target = after_calls (suc n) w.target }, ok (ok deleted))
  unfolding retry_attempts
  retry_attempts_succeed config failure n zero w f s h = absurd (omega arith)
  retry_attempts_succeed config failure zero (suc left) w f s h = ground arith
  retry_attempts_succeed config failure (suc n) (suc left) w f s h = ground (
    arith,
    retry_attempts_succeed config failure n left (record w { target = (call_once w.target).0 }) f.1
        s,
  )

  retry_attempts_exhausted :
      (config : Config x) (failure : FailedKey) (left : ℕ) (w : World x t)
      → FailsFor left w.target
      → retry_attempts x t config left key version_id etag failure w
        ≡ (record w { target = after_calls left w.target }, ok (err failure))
  unfolding retry_attempts
  retry_attempts_exhausted config failure zero w f = refl
  retry_attempts_exhausted config failure (suc left) w f = ground (
    arith,
    retry_attempts_exhausted config failure left (record w { target = (call_once w.target).0 }) f.1,
  )

  module _ (config : Config x) (code text : String) (w : World x t) where
    open config.force_retry_config use {force_retry_count}

    abbrev failure : FailedKey
    failure = record { key = key; version_id = version_id; error_code = code; error_message = text }

    -- The fallback stops at the first delete that succeeds, if it is among the first
    -- `force_retry_count + 1`, reports the key deleted, and changes nothing but the target.
    pub retry_failed_key-succeeds :
        (n : ℕ)
        → FailsFor n w.target
        → is_ok (call_once (after_calls n w.target)).1 ≡ true
        → n ≤ force_retry_count
        → retry_failed_key_with_single_delete x t config key version_id etag code text w
          ≡ (record w { target = after_calls (suc n) w.target }, ok (ok deleted))
    unfolding retry_failed_key_with_single_delete
    retry_failed_key-succeeds n f s h =
        retry_attempts_succeed config failure n (suc force_retry_count) w f s (omega arith)

    -- If the first `force_retry_count + 1` deletes all fail, the fallback makes no other, changes
    -- nothing but the target, and reports the code and message of the batch.
    pub retry_failed_key-exhausted :
        FailsFor (suc force_retry_count) w.target
        → retry_failed_key_with_single_delete x t config key version_id etag code text w
          ≡ (record w { target = after_calls (suc force_retry_count) w.target }, ok (err failure))
    unfolding retry_failed_key_with_single_delete
    retry_failed_key-exhausted = retry_attempts_exhausted config failure (suc force_retry_count) w
