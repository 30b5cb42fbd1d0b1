-- ===== src/Deleter/Backend/Fallback.antt =====
-- The fallback of `BatchDeleter` of src/deleter/batch.rs for a key that a batch delete refused, and
-- what it reports.
use mathlib.Core.List.{map-append, Perm}
use s3rm_rs.Base.{
  ℕ, zero, suc, ◌≡◌, refl, sym, ap, ◌∙◌, subst, Option, String, List, [], ◌∷◌, ◌++◌, append_assoc,
  append-nil, Result, ok, err, Post, and_then-Post, if_either, unwrap_or,
}
use s3rm_rs.Types.Object.{S3Object}
use s3rm_rs.Types.Error.{Error}
use s3rm_rs.Types.Sdk.{Sdk}
use s3rm_rs.Config.{Config}
use s3rm_rs.Storage.{Storage, ObjectError}
use s3rm_rs.Deleter.World.{DeletedKey, FailedKey, DeleteResult, World, Action}
use s3rm_rs.Deleter.Backend.{
  handle_error, handle_errors, settle, give_up, is_retryable_error_code, retry_attempts,
  retry_failed_key_with_single_delete,
}
use s3rm_rs.Deleter.Backend.Reported.{
  Identity, refused, reported_deleted, reported_failed, Did, IsAccountable, snoc_first, snoc_second,
  Accounts, Ends,
}

module _ (x : Sdk) (t : Storage) (config : Config x) (view : t.State → List Identity)
    (accountable : IsAccountable t view) where
  -- What the fallback of a key answers, from a view v on.
  abbrev Settled :
      String
      → Option String
      → FailedKey
      → List Identity
      → Result DeletedKey FailedKey
      → World x t
      → Type 0
  Settled k v f v1 (ok d) w =
      (d ≡ record { key = k; version_id = v }) × (view w.target ≡ v1 ++ (k, v) ∷ [])
  Settled k v f v1 (err g) w = (g ≡ f) × (view w.target ≡ v1)

  abbrev Fallback : Type 0
  Fallback = Action x t (Result DeletedKey FailedKey)

  abbrev Settles :
      String
      → Option String
      → FailedKey
      → List Identity
      → World x t × Result (Result DeletedKey FailedKey) Error
      → Type 0
  Settles k v f v1 m = Post (Settled k v f v1) (λ w. ⊥) m

  attempt-Settles :
      (k : String) (v : Option String) (f : FailedKey) (v1 : List Identity)
      (a : Result (Unit {0}) Error) (s : t.State) (w : World x t) (bad : Fallback)
      → view s ≡ v1
      → Did t view (k, v) a s w.target
      → (view w.target ≡ v1 → Settles k v f v1 (bad w))
      → Settles k v f v1 (
          (elim a as (λ _. Fallback) [
            | ok _ ↦ λ w. (w, ok (ok (record { key = k; version_id = v })))
            | err _ ↦ bad
          ])
            w)
  attempt-Settles k v f v1 (ok u) s w bad h did next = (refl, did ∙ ap (λ l. l ++ (k, v) ∷ []) h)
  attempt-Settles k v f v1 (err e) s w bad h did next = next (did ∙ h)

  retry_attempts-Settles :
      (left : ℕ) (k : String) (v etag : Option String) (f : FailedKey) (v1 : List Identity)
      (w : World x t)
      → view w.target ≡ v1
      → Settles k v f v1 (retry_attempts x t config left k v etag f w)
  unfolding retry_attempts
  retry_attempts-Settles zero k v etag f v1 w h = (refl, h)
  retry_attempts-Settles (suc left) k v etag f v1 w h =
      let w' = record w { target = (t.delete_object k v etag w.target).0 } in
      attempt-Settles k v f v1 (t.delete_object k v etag w.target).1 w.target w'
        (retry_attempts x t config left k v etag f) h (accountable.single k v etag w.target)
        (λ h'. retry_attempts-Settles left k v etag f v1 w' h')

  module _ (v0 done : List Identity) (r : DeleteResult) where
    give_up-Ends :
        (f : FailedKey) (w : World x t)
        → Accounts x t config view accountable v0 done r w
        → Ends x t config view accountable v0
            (done ++ (f.key, f.version_id) ∷ [])
            (give_up x t config f r w)
    give_up-Ends f w h = record {
      deleted = h.deleted;
      whole =
          subst (λ l. Perm (reported_deleted r ++ l) (done ++ (f.key, f.version_id) ∷ []))
            (sym (map-append (λ (g : FailedKey). (g.key, g.version_id)) r.failed (f ∷ [])))
            (snoc_second (reported_deleted r) (reported_failed r) done (f.key, f.version_id)
              h.whole);
    }

    settle-Ends :
        (k : String) (v : Option String) (f : FailedKey) (a : Result DeletedKey FailedKey)
        (w : World x t)
        → (f.key ≡ k) × (f.version_id ≡ v)
        → Perm (reported_deleted r ++ reported_failed r) done
        → Settled k v f (v0 ++ reported_deleted r) a w
        → Ends x t config view accountable v0 (done ++ (k, v) ∷ []) (settle x t config a r w)
    settle-Ends k v f (ok d) w of whole (e, did) =
        let same = map-append (λ (d : DeletedKey). (d.key, d.version_id)) r.deleted (d ∷ []) in
        let here : (d.key, d.version_id) ∷ [] ≡ (k, v) ∷ [] =
          ap (λ (d : DeletedKey). (d.key, d.version_id) ∷ []) e in
        let all = same ∙ ap (λ l. reported_deleted r ++ l) here in
        record {
          deleted = did ∙ append_assoc v0 (reported_deleted r) _ ∙ ap (λ l. v0 ++ l) (sym all);
          whole =
              subst (λ l. Perm (l ++ reported_failed r) (done ++ (k, v) ∷ [])) (sym all)
                (snoc_first (reported_deleted r) (reported_failed r) done (k, v) whole);
        }
    settle-Ends k v f (err g) w of whole (e, same) =
        let here : (g.key, g.version_id) ∷ [] ≡ (k, v) ∷ [] =
          ap (λ (f : FailedKey). (f.key, f.version_id) ∷ []) e
          ∙ ap (λ i. (i, f.version_id) ∷ []) of.0
          ∙ ap (λ i. (k, i) ∷ []) of.1 in
        subst (λ l. Ends x t config view accountable v0 (done ++ l) (give_up x t config g r w)) here
          (give_up-Ends g w (record { deleted = same; whole = whole }))

    handle_error-Ends :
        (chunk : List (S3Object x.DateTime)) (e : ObjectError) (w : World x t)
        → Accounts x t config view accountable v0 done r w
        → Ends x t config view accountable v0
            (done ++ refused (e ∷ []))
            (handle_error x t config chunk e r w)
    unfolding handle_error retry_failed_key_with_single_delete
    handle_error-Ends chunk e w h =
        let k = unwrap_or e.key "unknown" in
        let f : FailedKey = record {
          key = k;
          version_id = e.version_id;
          error_code = unwrap_or e.code "unknown";
          error_message = unwrap_or e.message "no message";
        } in
        if_either
          (λ (m : Action x t DeleteResult).
            Ends x t config view accountable v0 (done ++ refused (e ∷ [])) (m w))
          (is_retryable_error_code (unwrap_or e.code "unknown")) _ _
          (and_then-Post (Settled k e.version_id f (v0 ++ reported_deleted r))
            (Accounts x t config view accountable v0 (done ++ refused (e ∷ []))) (λ w. Unit) _
            (λ a. settle x t config a r)
            (weaken (Settled k e.version_id f (v0 ++ reported_deleted r)) _ (
              retry_attempts-Settles (suc config.force_retry_config.force_retry_count) k
                e.version_id _ f (v0 ++ reported_deleted r) w h.deleted))
            (λ a w' s. settle-Ends k e.version_id f a w' (refl, refl) h.whole s))
          (give_up-Ends f w h)
      where
        weaken :
            (P : Result DeletedKey FailedKey → World x t → Type 0)
            (m : World x t × Result (Result DeletedKey FailedKey) Error)
            → Post P (λ w. ⊥) m
            → Post P (λ w. Unit) m
        weaken P (w, ok a) p = p
        weaken P (w, err e) p = tt

  pub handle_errors-Ends :
      (v0 done : List Identity) (chunk : List (S3Object x.DateTime)) (es : List ObjectError)
      (r : DeleteResult) (w : World x t)
      → Accounts x t config view accountable v0 done r w
      → Ends x t config view accountable v0
          (done ++ refused es)
          (handle_errors x t config chunk es r w)
  unfolding handle_errors
  handle_errors-Ends v0 done chunk [] r w h =
      subst (λ l. Accounts x t config view accountable v0 l r w) (sym (append-nil done)) h
  handle_errors-Ends v0 done chunk (e ∷ es) r w h =
      subst
        (λ l. Ends x t config view accountable v0 l (handle_errors x t config chunk (e ∷ es) r w))
        (append_assoc done (refused (e ∷ [])) (refused es))
        (and_then-Post (Accounts x t config view accountable v0 (done ++ refused (e ∷ [])))
          (Accounts x t config view accountable v0 ((done ++ refused (e ∷ [])) ++ refused es))
          (λ w. Unit) (handle_error x t config chunk e r w) (handle_errors x t config chunk es)
          (handle_error-Ends v0 done r chunk e w h)
          (λ r' w' h'. handle_errors-Ends v0 (done ++ refused (e ∷ [])) chunk es r' w' h'))
