-- ===== src/Deleter/Backend/Reported.antt =====
-- What the results of `BatchDeleter` of src/deleter/batch.rs report, and what a target that answers
-- truly did.
use mathlib.Core.List.{Perm, perm_append_comm}
use mathlib.Core.List.Perm
use s3rm_rs.Base.{
  ◌≡◌, sym, subst, Option, String, List, [], ◌∷◌, ◌++◌, append_assoc, map, Result, ok, err, Post,
  unwrap_or,
}
use s3rm_rs.Types.Object.{S3Object}
use s3rm_rs.Types.Object
use s3rm_rs.Types.Error.{Error}
use s3rm_rs.Types.Sdk.{Sdk}
use s3rm_rs.Config.{Config}
use s3rm_rs.Storage.{Storage, ObjectIdentifier, ObjectError, DeletedObject, DeleteObjectsOutput}
use s3rm_rs.Deleter.World.{DeletedKey, FailedKey, DeleteResult, World}

-- A key with its version.
abbrev pub Identity : Type 0
Identity = String × Option String

abbrev pub requested : List ObjectIdentifier → List Identity
requested ids = map (λ (i : ObjectIdentifier). (i.key, i.version_id)) ids

abbrev pub listed_in : {D : Type 0} → List (S3Object D) → List Identity
listed_in objects = map (λ o. (Object.key o, Object.version_id o)) objects

-- What S3 reports as deleted and as refused. A missing key is reported under a stand-in.
abbrev pub confirmed : List DeletedObject → List Identity
confirmed ds = map (λ (d : DeletedObject). (unwrap_or d.key "", d.version_id)) ds

abbrev pub refused : List ObjectError → List Identity
refused es = map (λ (e : ObjectError). (unwrap_or e.key "unknown", e.version_id)) es

-- What a result reports.
abbrev pub reported_deleted : DeleteResult → List Identity
reported_deleted r = map (λ (d : DeletedKey). (d.key, d.version_id)) r.deleted

abbrev pub reported_failed : DeleteResult → List Identity
reported_failed r = map (λ (f : FailedKey). (f.key, f.version_id)) r.failed

module _ (t : Storage) (view : t.State → List Identity) where
  -- A single delete that is answered with success deletes its key, and one that is refused nothing.
  abbrev pub Did : Identity → Result (Unit {0}) Error → t.State → t.State → Type 0
  Did i (ok u) s s' = view s' ≡ view s ++ i ∷ []
  Did i (err e) s s' = view s' ≡ view s

  -- A batch delete that is answered deletes what the answer confirms, and the answer confirms or
  -- refuses each of the keys.
  abbrev pub Answers :
      List ObjectIdentifier → Result DeleteObjectsOutput Error → t.State → t.State → Type 0
  Answers ids (ok out) s s' =
      (view s' ≡ view s ++ confirmed out.deleted)
      × Perm (confirmed out.deleted ++ refused out.errors) (requested ids)
  Answers ids (err e) s s' = Unit

  pub record IsAccountable : Type 0 where
    pub single :
        (k : String) (v e : Option String) (s : t.State)
        → Did (k, v) (t.delete_object k v e s).1 s (t.delete_object k v e s).0
    pub batch :
        (ids : List ObjectIdentifier) (s : t.State)
        → Answers ids (t.delete_objects ids s).1 s (t.delete_objects ids s).0

module _ {A : Type 0} where
  -- One more at the end of the first or of the second list.
  pub snoc_first :
      (d f done : List A) (i : A) → Perm (d ++ f) done → Perm ((d ++ i ∷ []) ++ f) (done ++ i ∷ [])
  snoc_first d f done i h =
      subst (λ l. Perm l (done ++ i ∷ [])) (sym (append_assoc d (i ∷ []) f))
        (Perm.trans (Perm.append_left d (perm_append_comm (i ∷ []) f)) (
          subst (λ l. Perm l (done ++ i ∷ [])) (append_assoc d f (i ∷ []))
            (Perm.append_right (i ∷ []) h)))

  pub snoc_second :
      (d f done : List A) (i : A) → Perm (d ++ f) done → Perm (d ++ (f ++ i ∷ [])) (done ++ i ∷ [])
  snoc_second d f done i h =
      subst (λ l. Perm l (done ++ i ∷ [])) (append_assoc d f (i ∷ []))
        (Perm.append_right (i ∷ []) h)

  pub append_first : (d f done c : List A) → Perm (d ++ f) done → Perm ((d ++ c) ++ f) (done ++ c)
  append_first d f done c h =
      subst (λ l. Perm l (done ++ c)) (sym (append_assoc d c f))
        (Perm.trans (Perm.append_left d (perm_append_comm c f))
          (subst (λ l. Perm l (done ++ c)) (append_assoc d f c) (Perm.append_right c h)))

module _ (x : Sdk) (t : Storage) (config : Config x) (view : t.State → List Identity)
    (accountable : IsAccountable t view) where
  -- Since the view v0, the target deleted what the result reports as deleted, in this order, and the
  -- result reports each of the keys that are done once.
  pub record Accounts (v0 done : List Identity) (r : DeleteResult) (w : World x t) : Type 0 where
    pub deleted : view w.target ≡ v0 ++ reported_deleted r
    pub whole : Perm (reported_deleted r ++ reported_failed r) done

  -- The action accounts for these keys, if it does not fail.
  abbrev pub Ends : List Identity → List Identity → World x t × Result DeleteResult Error → Type 0
  Ends v0 done m = Post (Accounts v0 done) (λ w. Unit) m
