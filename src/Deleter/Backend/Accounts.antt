-- ===== src/Deleter/Backend/Accounts.antt =====
-- The results of `BatchDeleter` of src/deleter/batch.rs, against the objects that it is given and the
-- deletes that the target did.
use mathlib.Core.List.{flatten, map-append, Perm}
use mathlib.Core.List.Perm
use s3rm_rs.Base.{
  ◌≡◌, refl, sym, ap, ◌∙◌, subst, List, [], ◌∷◌, ◌++◌, append_assoc, append-nil, map, Result, ok,
  err, and_then, Post, and_then-Post, min, unwrap_or,
}
use s3rm_rs.Types.Object.{S3Object}
use s3rm_rs.Types.Object
use s3rm_rs.Types.Error.{Error}
use s3rm_rs.Types.Sdk.{Sdk}
use s3rm_rs.Config.{Config}
use s3rm_rs.Storage.{Storage, ObjectIdentifier, DeletedObject, DeleteObjectsOutput}
use s3rm_rs.Deleter.World.{DeletedKey, DeleteResult, World}
use s3rm_rs.Deleter.Backend.{
  handle_errors, delete_chunk, deleted_key, no_result, delete_chunks, batch_delete, identifier,
  chunks, max_batch_size,
}
use s3rm_rs.Deleter.Backend.Chunks.{flatten-chunks}
use s3rm_rs.Deleter.Backend.Reported.{
  Identity, requested, listed_in, confirmed, refused, reported_deleted, reported_failed, Answers,
  IsAccountable, append_first, Accounts, Ends,
}
use s3rm_rs.Deleter.Backend.Fallback.{handle_errors-Ends}

module _ (x : Sdk) (t : Storage) (config : Config x) (view : t.State → List Identity)
    (accountable : IsAccountable t view) where
  requested-identifier :
      (chunk : List (S3Object x.DateTime))
      → requested (map (identifier config.if_match) chunk) ≡ listed_in chunk
  unfolding identifier
  requested-identifier [] = refl
  requested-identifier (o ∷ chunk) =
      ap (◌∷◌ (Object.key o, Object.version_id o)) (requested-identifier chunk)

  Ends-Perm :
      (v0 done done' : List Identity) (m : World x t × Result DeleteResult Error)
      → Perm done done'
      → Ends x t config view accountable v0 done m
      → Ends x t config view accountable v0 done' m
  Ends-Perm v0 done done' (w, ok r) p h = record {
    deleted = h.deleted;
    whole = Perm.trans h.whole p;
  }
  Ends-Perm v0 done done' (w, err e) p h = tt

  confirmed-deleted_key :
      (ds : List DeletedObject)
      → map (λ (d : DeletedKey). (d.key, d.version_id)) (map deleted_key ds) ≡ confirmed ds
  confirmed-deleted_key [] = refl
  confirmed-deleted_key (d ∷ ds) =
      ap (◌∷◌ (unwrap_or d.key "", d.version_id)) (confirmed-deleted_key ds)

  answered-Ends :
      (v0 done : List Identity) (chunk : List (S3Object x.DateTime)) (ids : List ObjectIdentifier)
      (r : DeleteResult) (s : t.State) (w : World x t) (a : Result DeleteObjectsOutput Error)
      → view s ≡ v0 ++ reported_deleted r
      → Perm (reported_deleted r ++ reported_failed r) done
      → Answers t view ids a s w.target
      → Ends x t config view accountable v0 (done ++ requested ids) (
          and_then
            (w, a)
            (λ response.
              handle_errors x t config chunk response.errors
                (record r { deleted = r.deleted ++ map deleted_key response.deleted })))
  answered-Ends v0 done chunk ids r s w (err e) before whole h = tt
  answered-Ends v0 done chunk ids r s w (ok out) before whole h =
      let r' = record r { deleted = r.deleted ++ map deleted_key out.deleted } in
      let all : reported_deleted r' ≡ reported_deleted r ++ confirmed out.deleted =
        map-append (λ (d : DeletedKey). (d.key, d.version_id)) r.deleted
          (map deleted_key out.deleted)
        ∙ ap (λ l. reported_deleted r ++ l) (confirmed-deleted_key out.deleted) in
      let start : Accounts x t config view accountable v0 (done ++ confirmed out.deleted) r' w =
        record {
          deleted =
              h.0
              ∙ ap (λ l. l ++ confirmed out.deleted) before
              ∙ append_assoc v0 (reported_deleted r) (confirmed out.deleted)
              ∙ ap (λ l. v0 ++ l) (sym all);
          whole =
              subst (λ l. Perm (l ++ reported_failed r) (done ++ confirmed out.deleted)) (sym all)
                (append_first (reported_deleted r) (reported_failed r) done (confirmed out.deleted)
                  whole);
        } in
      Ends-Perm v0 ((done ++ confirmed out.deleted) ++ refused out.errors) (done ++ requested ids)
        (handle_errors x t config chunk out.errors r' w)
        (subst (λ l. Perm l (done ++ requested ids))
          (sym (append_assoc done (confirmed out.deleted) (refused out.errors)))
          (Perm.append_left done h.1))
        (handle_errors-Ends x t config view accountable v0 (done ++ confirmed out.deleted) chunk
          out.errors r' w start)

  delete_chunk-Ends :
      (v0 done : List Identity) (chunk : List (S3Object x.DateTime)) (r : DeleteResult)
      (w : World x t)
      → Accounts x t config view accountable v0 done r w
      → Ends x t config view accountable v0
          (done ++ listed_in chunk)
          (delete_chunk x t config chunk r w)
  unfolding delete_chunk
  delete_chunk-Ends v0 done chunk r w h =
      let ids = map (identifier config.if_match) chunk in
      subst
        (λ l. Ends x t config view accountable v0 (done ++ l) (delete_chunk x t config chunk r w))
        (requested-identifier chunk)
        (answered-Ends v0 done chunk ids r w.target
          (record w { target = (t.delete_objects ids w.target).0 })
          (t.delete_objects ids w.target).1 h.deleted h.whole (accountable.batch ids w.target))

  delete_chunks-Ends :
      (v0 done : List Identity) (cs : List (List (S3Object x.DateTime))) (r : DeleteResult)
      (w : World x t)
      → Accounts x t config view accountable v0 done r w
      → Ends x t config view accountable v0
          (done ++ listed_in (flatten cs))
          (delete_chunks x t config cs r w)
  unfolding delete_chunks flatten
  delete_chunks-Ends v0 done [] r w h =
      subst (λ l. Accounts x t config view accountable v0 l r w) (sym (append-nil done)) h
  delete_chunks-Ends v0 done (c ∷ cs) r w h =
      subst (λ l. Ends x t config view accountable v0 l (delete_chunks x t config (c ∷ cs) r w))
        (append_assoc done (listed_in c) (listed_in (flatten cs))
          ∙ ap (λ l. done ++ l)
              (sym (
                map-append (λ (o : S3Object x.DateTime). (Object.key o, Object.version_id o)) c
                  (flatten cs))))
        (and_then-Post (Accounts x t config view accountable v0 (done ++ listed_in c))
          (Accounts x t config view accountable v0
            ((done ++ listed_in c) ++ listed_in (flatten cs)))
          (λ w. Unit) (delete_chunk x t config c r w) (delete_chunks x t config cs)
          (delete_chunk-Ends v0 done c r w h)
          (λ r' w' h'. delete_chunks-Ends v0 (done ++ listed_in c) cs r' w' h'))

  -- If the target's answers are true of what it deletes, and a batch delete answers for each of its
  -- keys, then a batch backend that does not fail reports each object that it is given once, as
  -- deleted or as failed, whatever fallbacks it makes, and those that it reports as deleted are exactly
  -- those that the target deleted, in this order.
  pub batch_delete-Accounts :
      (objects : List (S3Object x.DateTime)) (w : World x t)
      → Post
          (Accounts x t config view accountable (view w.target) (listed_in objects))
          (λ w. Unit)
          (batch_delete x t config objects w)
  unfolding batch_delete
  batch_delete-Accounts objects w =
      subst
        (λ l.
          Ends x t config view accountable (view w.target) (listed_in l)
            (batch_delete x t config objects w))
        (flatten-chunks (min config.batch_size max_batch_size) objects)
        (delete_chunks-Ends (view w.target) []
          (chunks (min config.batch_size max_batch_size) objects) no_result w
          (record { deleted = sym (append-nil (view w.target)); whole = Perm.refl [] }))
