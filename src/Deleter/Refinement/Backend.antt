-- ===== src/Deleter/Refinement/Backend.antt =====
-- The backends of src/deleter/batch.rs and single.rs at a target that refuses nothing.
use mathlib.Core.List.{flatten, map-append}
use s3rm_rs.Base.{
  ◌≤◌, ◌<◌, ◌≡◌, refl, sym, ap, ◌∙◌, subst, true, List, [], ◌∷◌, ◌++◌, map, append-nil,
  append_assoc, Result, ok, err, and_then, Bool-cases, inl, inr, leb, min, length, arith, if_either,
}
use s3rm_rs.Types.Object
use s3rm_rs.Types.Object.{S3Object}
use s3rm_rs.Types.Error.{Error}
use s3rm_rs.Types.Sdk.{Sdk}
use s3rm_rs.Config.{Config}
use s3rm_rs.Storage.{Storage, DeleteObjectsOutput}
use s3rm_rs.Deleter.World.{DeleteResult, World, Action}
use s3rm_rs.Deleter.Backend.{
  handle_errors, delete_chunk, delete_chunks, batch_delete, single_delete, single_delete_object,
  if_match_etag, delete, identifier, chunks, no_result, deleted_key, max_batch_size,
}
use s3rm_rs.Deleter.Backend.Chunks.{flatten-chunks}
use s3rm_rs.Deleter.Refinement.{
  Identity, identity, identities, requested, Succeeds, IsFaithful, IsAt, Ends, then-Ends,
}

module _ (x : Sdk) (t : Storage) (config : Config x) (view : t.State → List Identity)
    (faithful : IsFaithful t view) (sent buffer : List (S3Object x.DateTime)) where
  -- No key failed, and these are deleted.
  abbrev pub Deleted : List Identity → DeleteResult → World x t → Type 0
  Deleted deleted r w = (r.failed ≡ []) × IsAt x t view deleted sent buffer w

  requested-identifier :
      (chunk : List (S3Object x.DateTime))
      → requested (map (identifier config.if_match) chunk) ≡ identities chunk
  unfolding identifier
  requested-identifier [] = refl
  requested-identifier (o ∷ chunk) = ap (◌∷◌ (identity o)) (requested-identifier chunk)

  answered-Ends :
      (chunk : List (S3Object x.DateTime)) (r : DeleteResult) (w : World x t)
      (deleted : List Identity) (a : Result DeleteObjectsOutput Error)
      → Succeeds (λ (out : DeleteObjectsOutput). out.errors ≡ []) a
      → r.failed ≡ []
      → IsAt x t view deleted sent buffer w
      → Ends x t view (Deleted deleted) (
          and_then
            (w, a)
            (λ response.
              handle_errors x t config chunk response.errors
                (record r { deleted = r.deleted ++ map deleted_key response.deleted })))
  unfolding handle_errors
  answered-Ends chunk r w deleted (ok out) good clean h = rw good (clean, h)
  answered-Ends chunk r w deleted (err e) good clean h = absurd good

  delete_chunk-Ends :
      (chunk : List (S3Object x.DateTime)) (r : DeleteResult) (w : World x t)
      (deleted : List Identity)
      → Deleted deleted r w
      → Ends x t view (Deleted (deleted ++ identities chunk)) (delete_chunk x t config chunk r w)
  unfolding delete_chunk
  delete_chunk-Ends chunk r w deleted h =
      let ids = map (identifier config.if_match) chunk in
      let (good, done) = faithful.batch ids w.target in
      answered-Ends chunk r (record w { target = (t.delete_objects ids w.target).0 })
        (deleted ++ identities chunk) (t.delete_objects ids w.target).1 good h.0
        (done ∙ rw (h.1.0, requested-identifier chunk) refl, h.1.1, h.1.2, h.1.3)

  delete_chunks-Ends :
      (cs : List (List (S3Object x.DateTime))) (r : DeleteResult) (w : World x t)
      (deleted : List Identity)
      → Deleted deleted r w
      → Ends x t view
          (Deleted (deleted ++ identities (flatten cs)))
          (delete_chunks x t config cs r w)
  unfolding delete_chunks flatten
  delete_chunks-Ends [] r w deleted h = rw (append-nil deleted) h
  delete_chunks-Ends (c ∷ cs) r w deleted h =
      subst (λ d. Ends x t view (Deleted d) (delete_chunks x t config (c ∷ cs) r w))
        (append_assoc deleted (identities c) (identities (flatten cs))
          ∙ ap (◌++◌ deleted) (sym (map-append identity c (flatten cs))))
        (then-Ends x t view (Deleted (deleted ++ identities c))
          (Deleted ((deleted ++ identities c) ++ identities (flatten cs)))
          (delete_chunk x t config c r w) (delete_chunks x t config cs)
          (delete_chunk-Ends c r w deleted h)
          (λ r w h. delete_chunks-Ends cs r w (deleted ++ identities c) h))

  single_answered-Ends :
      (r : Result (Unit {0}) Error) (good : Action x t DeleteResult)
      (bad : Error → Action x t DeleteResult) (w : World x t) (deleted : List Identity)
      → Succeeds (λ u. Unit) r
      → Ends x t view (Deleted deleted) (good w)
      → Ends x t view
          (Deleted deleted)
          ((elim r as (λ _. Action x t DeleteResult) [ ok _ ↦ good | err e ↦ bad e ]) w)
  single_answered-Ends (ok u) good bad w deleted s h = h
  single_answered-Ends (err e) good bad w deleted s h = absurd s

  single_delete-Ends :
      (o : S3Object x.DateTime) (w : World x t) (deleted : List Identity)
      → IsAt x t view deleted sent buffer w
      → Ends x t view (Deleted (deleted ++ identity o ∷ [])) (single_delete x t config (o ∷ []) w)
  unfolding single_delete single_delete_object
  single_delete-Ends o w deleted h =
      let (good, done) =
        faithful.single (Object.key o) (Object.version_id o) (if_match_etag config.if_match o)
          w.target in
      single_answered-Ends
        (t.delete_object (Object.key o) (Object.version_id o) (if_match_etag config.if_match o)
          w.target).1
        _ _ _ (deleted ++ identity o ∷ []) good (refl, (done ∙ rw (h.0) refl, h.1, h.2, h.3))

  batch_delete-Ends :
      (batch : List (S3Object x.DateTime)) (w : World x t) (deleted : List Identity)
      → IsAt x t view deleted sent buffer w
      → Ends x t view (Deleted (deleted ++ identities batch)) (batch_delete x t config batch w)
  unfolding batch_delete
  batch_delete-Ends batch w deleted h =
      let size = min config.batch_size max_batch_size in
      subst
        (λ all.
          Ends x t view (Deleted (deleted ++ identities all)) (batch_delete x t config batch w))
        (flatten-chunks size batch)
        (delete_chunks-Ends (chunks size batch) no_result w deleted (refl, h))

  -- A backend that is given a batch which suits it deletes all of it and reports no failure.
  pub delete-Ends :
      (batch : List (S3Object x.DateTime)) (w : World x t) (deleted : List Identity)
      → 0 < length batch
      → (leb config.batch_size 1 ≡ true → length batch ≤ 1)
      → IsAt x t view deleted sent buffer w
      → Ends x t view (Deleted (deleted ++ identities batch)) (delete x t config batch w)
  unfolding delete
  delete-Ends [] w deleted full fits h = absurd (omega (arith, full))
  delete-Ends (o ∷ []) w deleted full fits h =
      if_either
        (λ (m : Action x t DeleteResult).
          Ends x t view (Deleted (deleted ++ identity o ∷ [])) (m w))
        (leb config.batch_size 1) _ _ (single_delete-Ends o w deleted h)
        (batch_delete-Ends (o ∷ []) w deleted h)
  delete-Ends (o ∷ p ∷ objects) w deleted full fits h =
      elim (Bool-cases (leb config.batch_size 1)) [
        | inl one ↦ absurd (omega (arith, fits one))
        | inr several ↦ rw several (batch_delete-Ends (o ∷ p ∷ objects) w deleted h)
      ]
