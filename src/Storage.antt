-- ===== src/Storage.antt =====
-- `StorageTrait` of src/storage/mod.rs: the S3 target behind the deletion stages.
pub mod Listing
pub mod S3
pub mod ClientBuilder
pub mod Create
use s3rm_rs.Base.{ℕ, Bool, Option, String, List, Result}
use s3rm_rs.Types.Error.{Error}

-- Metadata is a map: a list of its entries, in no order, with each key once.
pub record HeadObjectOutput : Type 0 where
  pub content_type : Option String
  pub metadata : Option (List (String × String))

pub record Tag : Type 0 where
  pub key : String
  pub value : String

pub record GetObjectTaggingOutput : Type 0 where
  pub tag_set : List Tag

-- `ObjectIdentifier`, one entry of a DeleteObjects request.
pub record ObjectIdentifier : Type 0 where
  pub key : String
  pub version_id : Option String
  pub e_tag : Option String

pub record DeletedObject : Type 0 where
  pub key : Option String
  pub version_id : Option String

pub record ObjectError : Type 0 where
  pub key : Option String
  pub version_id : Option String
  pub code : Option String
  pub message : Option String

pub record DeleteObjectsOutput : Type 0 where
  pub deleted : List DeletedObject
  pub errors : List ObjectError

-- The target in a state of its own, which holds all that its answers depend on. The output of
-- DeleteObject is not used.
pub record Storage : Type 1 where
  pub State : Type 0
  pub head_object : String → Option String → State → State × Result HeadObjectOutput Error
  pub get_object_tagging :
      String → Option String → State → State × Result GetObjectTaggingOutput Error
  pub delete_object :
      String → Option String → Option String → State → State × Result (Unit {0}) Error
  pub delete_objects : List ObjectIdentifier → State → State × Result DeleteObjectsOutput Error
  pub is_versioning_enabled : State → State × Result Bool Error
