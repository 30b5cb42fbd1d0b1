-- ===== src/Deleter/Attributes.antt =====
-- The content-type, metadata and tag filters of a delete worker (src/deleter/mod.rs). An action
-- answers `true` for an object that is to be skipped.
pub mod Laws
use s3rm_rs.Base.{
  ℕ, Bool, true, false, not, ◌||◌, Option, none, some, is_some, unwrap_or, String, ◌<>◌, List, [],
  ◌∷◌, Result, ok, err, M, ◌>>=◌, ◌>>◌, return, fail, modify, if◌then◌else◌,
}
use s3rm_rs.Base.Int.{as_u64}
use s3rm_rs.Types.Object
use s3rm_rs.Types.Object.{S3Object}
use s3rm_rs.Types.Stats.{delete_skip}
use s3rm_rs.Types.Error.{Error, message, context, alternate, is_not_found_error}
use s3rm_rs.Types.Sdk.{Sdk}
use s3rm_rs.Config.{Config}
use s3rm_rs.Storage.{Storage, HeadObjectOutput, GetObjectTaggingOutput}
use s3rm_rs.Filters.Loop.{filtered_event}
use s3rm_rs.Deleter.Format.{format_metadata, format_tags}
use s3rm_rs.Deleter.World.{World, Action, attempt, lift, send_stats, trigger_event, cancel}

module _ (x : Sdk) where
  abbrev wanted : Bool → Bool → Bool
  wanted is_include is_match = if is_include then is_match else not is_match

  abbrev regex_failed : String → String → String → Error
  regex_failed filter_name key e =
      message (
        "regex match failed for filter '" <> (filter_name <> ("', key '" <> (key <> ("': " <> e)))))

  abbrev judged : String → String → Bool → Result Bool String → Result Bool Error
  judged filter_name key is_include (ok is_match) = ok (wanted is_include is_match)
  judged filter_name key is_include (err e) = err (regex_failed filter_name key e)

  -- `decide_delete_by_regex`: `true` passes the object.
  unfoldable pub decide_delete_by_regex :
      String → Option x.Regex → Option String → String → Bool → Result Bool Error
  decide_delete_by_regex key none value filter_name is_include = ok true
  decide_delete_by_regex key (some regex) none filter_name is_include = ok (not is_include)
  decide_delete_by_regex key (some regex) (some value) filter_name is_include =
      judged filter_name key is_include (x.is_match regex value)

module _ (x : Sdk) (t : Storage) (config : Config x) where
  open config use {filter_config as fc}

  abbrev notify : S3Object x.DateTime → String → World x t → World x t
  notify object filter_name w =
      if config.event_callback_registered
      then trigger_event x t (filtered_event x object ("Object filtered by " <> filter_name)) w
      else w

  -- `emit_filter_skip`
  unfoldable pub emit_filter_skip : S3Object x.DateTime → String → World x t → World x t
  unfolding filtered_event Object.key
  emit_filter_skip object filter_name w =
      notify object filter_name (send_stats x t (delete_skip (Object.key object)) w)

  abbrev skip : S3Object x.DateTime → String → Action x t Bool
  skip object filter_name = do modify (emit_filter_skip object filter_name); return true

  -- `if !decide_delete_by_regex(..)? { emit_filter_skip(..); return Ok(true); }`, then the rest.
  unfoldable pub unless_rejected :
      S3Object x.DateTime
      → Option x.Regex
      → Option String
      → String
      → Bool
      → Action x t Bool
      → Action x t Bool
  unfolding emit_filter_skip decide_delete_by_regex Object.key
  unless_rejected object regex value filter_name is_include rest = do
    passes ←
        lift x t (decide_delete_by_regex x (Object.key object) regex value filter_name is_include)
    if passes then rest else skip object filter_name

  -- `handle_api_error`
  unfoldable pub handle_api_error : Error → String → String → Action x t Bool
  unfolding is_not_found_error alternate
  handle_api_error e key operation =
      if is_not_found_error e
      then (do modify (send_stats x t (delete_skip key)); return true)
      else (do
        modify (cancel x t)
        fail (context (operation <> (" failed for key: " <> key)) (message (alternate e))))

  unfoldable pub needs_head_object : Bool
  needs_head_object =
      is_some fc.include_content_type_regex
      || (is_some fc.exclude_content_type_regex
          || (is_some fc.include_metadata_regex || is_some fc.exclude_metadata_regex))

  -- `.filter(|m| !m.is_empty()).map(format_metadata)`
  abbrev formatted_metadata : Option (List (String × String)) → Option String
  formatted_metadata none = none
  formatted_metadata (some []) = none
  formatted_metadata (some (m ∷ ms)) = some (format_metadata x.encode (m ∷ ms))

  unfoldable pub filter_by_head : S3Object x.DateTime → HeadObjectOutput → Action x t Bool
  filter_by_head object head =
      unless_rejected object fc.include_content_type_regex head.content_type
        "include_content_type_regex_filter" true
        (unless_rejected object fc.exclude_content_type_regex head.content_type
          "exclude_content_type_regex_filter" false
          (unless_rejected object fc.include_metadata_regex (formatted_metadata head.metadata)
            "include_metadata_regex_filter" true
            (unless_rejected object fc.exclude_metadata_regex (formatted_metadata head.metadata)
              "exclude_metadata_regex_filter" false (return false))))

  abbrev pub head_answered : S3Object x.DateTime → Result HeadObjectOutput Error → Action x t Bool
  head_answered object (ok head) = filter_by_head object head
  head_answered object (err e) = handle_api_error e (Object.key object) "head_object"

  unfoldable pub apply_head_object_filters : S3Object x.DateTime → Action x t Bool
  apply_head_object_filters object =
      if not needs_head_object
      then return false
      else if Object.is_delete_marker object
      then skip object "delete_marker_attribute_filter"
      else (do
        answer ← attempt x t (t.head_object (Object.key object) (Object.version_id object))
        head_answered object answer)

  unfoldable pub needs_tagging : Bool
  needs_tagging = is_some fc.include_tag_regex || is_some fc.exclude_tag_regex

  unfoldable pub filter_by_tags : S3Object x.DateTime → GetObjectTaggingOutput → Action x t Bool
  filter_by_tags object tagging =
      unless_rejected object fc.include_tag_regex (some (format_tags x.encode tagging.tag_set))
        "include_tag_regex_filter" true
        (unless_rejected object fc.exclude_tag_regex (some (format_tags x.encode tagging.tag_set))
          "exclude_tag_regex_filter" false (return false))

  abbrev pub tagging_answered :
      S3Object x.DateTime → Result GetObjectTaggingOutput Error → Action x t Bool
  tagging_answered object (ok tagging) = filter_by_tags object tagging
  tagging_answered object (err e) = handle_api_error e (Object.key object) "get_object_tagging"

  unfoldable pub apply_tag_filters : S3Object x.DateTime → Action x t Bool
  apply_tag_filters object =
      if not needs_tagging
      then return false
      else if Object.is_delete_marker object
      then skip object "delete_marker_attribute_filter"
      else (do
        answer ← attempt x t (t.get_object_tagging (Object.key object) (Object.version_id object))
        tagging_answered object answer)
