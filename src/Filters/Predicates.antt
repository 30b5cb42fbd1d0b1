-- ===== src/Filters/Predicates.antt =====
-- The tests of the eight filter stages: `true` passes the object on to deletion. A filter whose
-- setting is missing, and a test that fails, keep the object to be safe.
use s3rm_rs.Base.{
  Bool, true, false, not, Option, none, some, String, Result, ok, err, ltb, leb, if◌then◌else◌,
}
use s3rm_rs.Base.Int.{is_negative, as_u64}
use s3rm_rs.Types.Object
use s3rm_rs.Types.Object.{S3Object}
use s3rm_rs.Types.Sdk.{Sdk}
use s3rm_rs.Config.{FilterConfig}

module _ (x : Sdk) where
  abbrev or_false : Result Bool String → Bool
  or_false (ok b) = b
  or_false (err e) = false

  -- src/filters/include_regex.rs
  unfoldable pub is_match : S3Object x.DateTime → FilterConfig x → Bool
  unfolding Object.key
  is_match object config = elim config.include_regex [
    | none ↦ false
    | some regex ↦ or_false (x.is_match regex (Object.key object))
  ]

  abbrev not_or_false : Result Bool String → Bool
  not_or_false (ok b) = not b
  not_or_false (err e) = false

  -- src/filters/exclude_regex.rs
  unfoldable pub is_not_match : S3Object x.DateTime → FilterConfig x → Bool
  unfolding Object.key
  is_not_match object config = elim config.exclude_regex [
    | none ↦ false
    | some regex ↦ not_or_false (x.is_match regex (Object.key object))
  ]

  -- The two conversions that both time filters make.
  unfoldable pub last_modified_utc : S3Object x.DateTime → Option x.Utc
  unfolding Object.last_modified
  last_modified_utc object = elim (x.to_millis (Object.last_modified object)) [
    | none ↦ none
    | some millis ↦ x.to_chrono_utc millis
  ]

  -- src/filters/mtime_before.rs
  unfoldable pub is_before : S3Object x.DateTime → FilterConfig x → Bool
  unfolding last_modified_utc
  is_before object config = elim config.before_time [
    | none ↦ false
    | some before_time ↦ elim (last_modified_utc object) [
      | none ↦ false
      | some last_modified ↦ if x.le_utc before_time last_modified then false else true
    ]
  ]

  -- src/filters/mtime_after.rs
  unfoldable pub is_after_or_equal : S3Object x.DateTime → FilterConfig x → Bool
  unfolding last_modified_utc
  is_after_or_equal object config = elim config.after_time [
    | none ↦ false
    | some after_time ↦ elim (last_modified_utc object) [
      | none ↦ false
      | some last_modified ↦ if x.lt_utc last_modified after_time then false else true
    ]
  ]

  -- src/filters/smaller_size.rs
  unfoldable pub is_smaller : S3Object x.DateTime → FilterConfig x → Bool
  unfolding Object.is_delete_marker Object.size
  is_smaller object config =
      if Object.is_delete_marker object then false else elim config.smaller_size [
        | none ↦ false
        | some smaller_size ↦
            let object_size = Object.size object in
            if is_negative object_size
            then false
            else if leb smaller_size (as_u64 object_size)
            then false
            else true
      ]

  -- src/filters/larger_size.rs
  unfoldable pub is_larger_or_equal : S3Object x.DateTime → FilterConfig x → Bool
  unfolding Object.is_delete_marker Object.size
  is_larger_or_equal object config =
      if Object.is_delete_marker object then false else elim config.larger_size [
        | none ↦ false
        | some larger_size ↦
            let object_size = Object.size object in
            if is_negative object_size
            then false
            else if ltb (as_u64 object_size) larger_size
            then false
            else true
      ]

  -- src/filters/keep_latest_only.rs
  unfoldable pub is_not_latest : S3Object x.DateTime → FilterConfig x → Bool
  unfolding Object.is_latest
  is_not_latest object config = if Object.is_latest object then false else true

  -- src/filters/delete_marker_only.rs
  unfoldable pub is_delete_marker : S3Object x.DateTime → FilterConfig x → Bool
  unfolding Object.is_delete_marker
  is_delete_marker object config = if not (Object.is_delete_marker object) then false else true
