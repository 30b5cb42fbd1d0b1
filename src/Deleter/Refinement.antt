-- ===== src/Deleter/Refinement.antt =====
-- What the delete workers of src/deleter promise, as a list of the objects they delete: the target's
-- view is the deletes that it did, and a target that refuses none is `IsFaithful`.
pub mod Backend
pub mod Flush
pub mod Worker
pub mod Buffers
pub mod Workers
pub mod Selected
use s3rm_rs.Base.{
  ℕ, zero, suc, ◌≡◌, false, Option, String, List, [], ◌∷◌, ◌++◌, map, Result, ok, err, M, Post,
  and_then, and_then-Post,
}
use s3rm_rs.Types.Object
use s3rm_rs.Types.Object.{S3Object}
use s3rm_rs.Types.Error.{Error}
use s3rm_rs.Types.Sdk.{Sdk}
use s3rm_rs.Storage.{Storage, ObjectIdentifier, DeleteObjectsOutput}
use s3rm_rs.Deleter.World.{World}
pub use s3rm_rs.Deleter.Backend.Reported.{Identity, requested}

abbrev pub identity : {D : Type 0} → S3Object D → Identity
identity o = (Object.key o, Object.version_id o)

abbrev pub identities : {D : Type 0} → List (S3Object D) → List Identity
identities objects = map identity objects

abbrev pub Succeeds : {A : Type 0} → (A → Type 0) → Result A Error → Type 0
Succeeds P (ok a) = P a
Succeeds P (err e) = ⊥

-- The target does the deletes that it is asked for, once and in order, and reports no error.
pub record IsFaithful (t : Storage) (view : t.State → List Identity) : Type 0 where
  pub single :
      (k : String) (v e : Option String) (s : t.State)
      → Succeeds (λ u. Unit) (t.delete_object k v e s).1
        × (view (t.delete_object k v e s).0 ≡ view s ++ (k, v) ∷ [])
  pub batch :
      (ids : List ObjectIdentifier) (s : t.State)
      → Succeeds (λ (out : DeleteObjectsOutput). out.errors ≡ []) (t.delete_objects ids s).1
        × (view (t.delete_objects ids s).0 ≡ view s ++ requested ids)

module _ (x : Sdk) (t : Storage) (view : t.State → List Identity) where
  -- A worker that was not cancelled: what is deleted, and what it sent and buffers, newest first.
  abbrev pub IsAt :
      List Identity → List (S3Object x.DateTime) → List (S3Object x.DateTime) → World x t → Type 0
  IsAt deleted sent buffer w =
      (view w.target ≡ deleted) × (w.sent ≡ sent) × (w.buffer ≡ buffer) × (w.cancelled ≡ false)

  -- An action that ends well and with a property.
  abbrev pub Ends : {A : Type 0} → (A → World x t → Type 0) → World x t × Result A Error → Type 0
  Ends P m = Post P (λ w. ⊥) m

  pub then-Ends :
      {A B : Type 0} (P : A → World x t → Type 0) (R : B → World x t → Type 0)
      (m : World x t × Result A Error) (f : A → M (World x t) Error B)
      → Ends P m
      → ((a : A) (w : World x t) → P a w → Ends R (f a w))
      → Ends R (and_then m f)
  then-Ends P R m f = and_then-Post P R (λ w. ⊥) m f

  pub Ends-map :
      {A : Type 0} (P R : A → World x t → Type 0) (m : World x t × Result A Error)
      → ((a : A) (w : World x t) → P a w → R a w)
      → Ends P m
      → Ends R m
  Ends-map P R (w, ok a) f p = f a w p
  Ends-map P R (w, err e) f p = p
