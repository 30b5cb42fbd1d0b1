-- ===== src/Types/Object.antt =====
-- `S3Object` of src/types/mod.rs. `D` is the SDK's `DateTime`. A listed object has a key, a size
-- and a modification time: the accessors panic on one without, which is outside the model.
use s3rm_rs.Base.{Bool, true, false, Option, none, some, String, unwrap_or}
use s3rm_rs.Base.Int.{ℤ, pos}

module _ (D : Type 0) where
  -- `aws_sdk_s3::types::Object`
  pub record Object : Type 0 where
    pub key : String
    pub size : ℤ
    pub last_modified : D
    pub e_tag : Option String

  -- `aws_sdk_s3::types::ObjectVersion`
  pub record ObjectVersion : Type 0 where
    pub key : String
    pub version_id : Option String
    pub size : ℤ
    pub last_modified : D
    pub e_tag : Option String
    pub is_latest : Option Bool

  -- `aws_sdk_s3::types::DeleteMarkerEntry`
  pub record DeleteMarkerEntry : Type 0 where
    pub key : String
    pub version_id : Option String
    pub last_modified : D
    pub is_latest : Option Bool

  pub data S3Object : Type 0 where
    not_versioning : Object → S3Object
    versioning : ObjectVersion → S3Object
    delete_marker : DeleteMarkerEntry → S3Object

module _ {D : Type 0} where
  -- `S3Object::new`; the epoch is the SDK's `DateTime::from_secs(0)`.
  unfoldable pub new : D → String → ℤ → S3Object D
  new epoch key size =
      not_versioning (record { key = key; size = size; last_modified = epoch; e_tag = none })

  -- `S3Object::new_versioned`
  unfoldable pub new_versioned : D → String → String → ℤ → S3Object D
  new_versioned epoch key version_id size = versioning (record {
    key = key;
    version_id = some version_id;
    size = size;
    last_modified = epoch;
    e_tag = none;
    is_latest = some true;
  })

  unfoldable pub key : S3Object D → String
  key (versioning o) = o.key
  key (not_versioning o) = o.key
  key (delete_marker m) = m.key

  unfoldable pub last_modified : S3Object D → D
  last_modified (versioning o) = o.last_modified
  last_modified (not_versioning o) = o.last_modified
  last_modified (delete_marker m) = m.last_modified

  unfoldable pub size : S3Object D → ℤ
  size (versioning o) = o.size
  size (not_versioning o) = o.size
  size (delete_marker m) = pos 0

  unfoldable pub version_id : S3Object D → Option String
  version_id (versioning o) = o.version_id
  version_id (not_versioning o) = none
  version_id (delete_marker m) = m.version_id

  unfoldable pub e_tag : S3Object D → Option String
  e_tag (versioning o) = o.e_tag
  e_tag (not_versioning o) = o.e_tag
  e_tag (delete_marker m) = none

  unfoldable pub is_latest : S3Object D → Bool
  is_latest (versioning o) = unwrap_or o.is_latest true
  is_latest (not_versioning o) = true
  is_latest (delete_marker m) = unwrap_or m.is_latest true

  unfoldable pub is_delete_marker : S3Object D → Bool
  is_delete_marker (delete_marker m) = true
  is_delete_marker (versioning o) = false
  is_delete_marker (not_versioning o) = false
