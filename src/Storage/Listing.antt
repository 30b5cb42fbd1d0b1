-- ===== src/Storage/Listing.antt =====
-- The sequential listing of src/storage/s3/mod.rs. The answers of S3 to the list calls are a
-- parameter; they may depend on the number of the request.
pub mod Contract
pub mod Requests
pub mod Laws
pub mod Parallel
pub mod Permits
pub mod Dispatch
use s3rm_rs.Base.{
  ℕ, zero, suc, Bool, true, false, not, ◌&&◌, ◌||◌, Option, none, some, is_some, String, ◌<>◌, List,
  [], ◌∷◌, ◌++◌, map, Result, ok, err, opt_str_eq, if◌then◌else◌, ltb, unwrap_or,
}
use s3rm_rs.Types.Object.{
  Object, ObjectVersion, DeleteMarkerEntry, S3Object, not_versioning, versioning, delete_marker,
}
use s3rm_rs.Types.Error.{
  Error, SdkError, Operation, sdk, context, message, list_objects_v2, list_object_versions,
}
use s3rm_rs.Types.Sdk.{Sdk}
use s3rm_rs.Config.{Config}
use s3rm_rs.Stage.{Surroundings, SendResult, success, closed, send}

pub data ListingMode : Type 0 where
  objects versions : ListingMode

-- `ListingMode::label`
unfoldable pub label : ListingMode → String
label objects = "object"
label versions = "object version"

module _ (x : Sdk) where
  -- The parts of `ListObjectsV2Output` and `ListObjectVersionsOutput` that are read.
  pub record ListObjectsV2Output : Type 0 where
    pub contents : List (Object x.DateTime)
    pub common_prefixes : List (Option String)
    pub is_truncated : Option Bool
    pub next_continuation_token : Option String

  pub record ListObjectVersionsOutput : Type 0 where
    pub versions : List (ObjectVersion x.DateTime)
    pub delete_markers : List (DeleteMarkerEntry x.DateTime)
    pub common_prefixes : List (Option String)
    pub is_truncated : Option Bool
    pub next_key_marker : Option String
    pub next_version_id_marker : Option String

  -- The list calls, given the number of the request, the prefix, the delimiter, and the position.
  pub record ListApi : Type 0 where
    pub list_objects_v2 :
        ℕ → String → Option String → Option String → Result ListObjectsV2Output SdkError
    pub list_object_versions :
        ℕ
        → String
        → Option String
        → Option String
        → Option String
        → Result ListObjectVersionsOutput SdkError

  pub record ListPage : Type 0 where
    pub objects : List (S3Object x.DateTime)
    pub sub_prefixes : List String
    pub is_truncated : Bool
    pub continuation_token : Option String
    pub key_marker : Option String
    pub version_id_marker : Option String

  -- The three variables that the loop carries.
  pub record Cursor : Type 0 where
    pub continuation_token : Option String
    pub key_marker : Option String
    pub version_id_marker : Option String

  abbrev pub start : Cursor
  start = record { continuation_token = none; key_marker = none; version_id_marker = none }

  -- `filter_map` of the common prefixes.
  unfoldable pub sub_prefixes_of : List (Option String) → List String
  sub_prefixes_of [] = []
  sub_prefixes_of (none ∷ rest) = sub_prefixes_of rest
  sub_prefixes_of (some prefix ∷ rest) = prefix ∷ sub_prefixes_of rest

  unfoldable pub page_of_objects : ListObjectsV2Output → ListPage
  unfolding sub_prefixes_of
  page_of_objects output = record {
    objects = map not_versioning output.contents;
    sub_prefixes = sub_prefixes_of output.common_prefixes;
    is_truncated = unwrap_or output.is_truncated false;
    continuation_token = output.next_continuation_token;
    key_marker = none;
    version_id_marker = none;
  }

  unfoldable pub page_of_versions : ListObjectVersionsOutput → ListPage
  unfolding sub_prefixes_of
  page_of_versions output = record {
    objects = map versioning output.versions ++ map delete_marker output.delete_markers;
    sub_prefixes = sub_prefixes_of output.common_prefixes;
    is_truncated = unwrap_or output.is_truncated false;
    continuation_token = none;
    key_marker = output.next_key_marker;
    version_id_marker = output.next_version_id_marker;
  }

  abbrev pub uri : Config x → String → String
  uri config prefix = "s3://" <> (config.target.bucket <> ("/" <> prefix))

  abbrev listed :
      {A : Type 0} → Operation → String → (A → ListPage) → Result A SdkError → Result ListPage Error
  listed op text page (ok output) = ok (page output)
  listed op text page (err e) = err (context text (sdk op e))

  module _ (api : ListApi) (config : Config x) where
    -- `fetch_list_page`
    unfoldable pub fetch_list_page :
        ListingMode → ℕ → String → Option String → Cursor → Result ListPage Error
    unfolding page_of_objects page_of_versions
    fetch_list_page objects n prefix delimiter cursor =
        listed list_objects_v2
          ("aws_sdk_s3::client::list_objects_v2() failed. " <> uri config prefix) page_of_objects
          (api.list_objects_v2 n prefix delimiter cursor.continuation_token)
    fetch_list_page versions n prefix delimiter cursor =
        listed list_object_versions
          ("aws_sdk_s3::client::list_object_versions() failed. " <> uri config prefix)
          page_of_versions
          (api.list_object_versions n prefix delimiter cursor.key_marker cursor.version_id_marker)

    abbrev same_place : String → String → String
    same_place prefix what =
        "S3 returned the same "
        <> (what
            <> (" twice for "
                <> (uri config prefix
                    <> "; refusing to loop. This is likely a bug in the S3-compatible endpoint.")))

    -- The position behind a truncated page of a listing under a prefix.
    unfoldable pub next_cursor : ListingMode → String → Cursor → ListPage → Result Cursor Error
    next_cursor objects prefix cursor page =
        if not (is_some page.continuation_token)
        then err (
            message (
              "S3 returned truncated response but no continuation token for " <> uri config prefix))
        else if opt_str_eq page.continuation_token cursor.continuation_token
        then err (message (same_place prefix "continuation token"))
        else ok (record cursor { continuation_token = page.continuation_token })
    next_cursor versions prefix cursor page =
        if not (is_some page.key_marker)
        then err (
            message
              ("S3 returned truncated response but no next key marker for " <> uri config prefix))
        else if opt_str_eq page.key_marker cursor.key_marker
            && opt_str_eq page.version_id_marker cursor.version_id_marker
        then err (message (same_place prefix "key/version marker"))
        else ok (record cursor {
          key_marker = page.key_marker;
          version_id_marker = page.version_id_marker;
        })

  -- What `send_listed_objects` does: the objects that the channel took, how often the token was read
  -- and a send tried before and in it, and its answer, which is `true` if it was stopped.
  pub record Batch : Type 0 where
    pub sent : List (S3Object x.DateTime)
    pub reads : ℕ
    pub sends : ℕ
    pub stopped : Result Bool Error

  abbrev halted : ℕ → ℕ → Result Bool Error → Batch
  halted reads sends answer = record { sent = []; reads = reads; sends = sends; stopped = answer }

  abbrev sent_one : Result SendResult Error → S3Object x.DateTime → ℕ → ℕ → Batch → Batch
  sent_one (ok success) o reads sends rest = record rest { sent = o ∷ rest.sent }
  sent_one (ok closed) o reads sends rest = halted reads sends (ok true)
  sent_one (err e) o reads sends rest = halted reads sends (err e)

  -- The whole listing: the objects sent, and its answer; `none` is a loop that runs out of fuel.
  pub record Listing : Type 0 where
    pub sent : List (S3Object x.DateTime)
    pub outcome : Option (Result (Unit {0}) Error)

  abbrev pub finished : Result (Unit {0}) Error → Listing
  finished r = record { sent = []; outcome = some r }

  module _ (env : Surroundings) where
    -- `send_listed_objects`
    unfoldable pub send_listed_objects : List (S3Object x.DateTime) → ℕ → ℕ → Batch
    unfolding send
    send_listed_objects [] reads sends = halted reads sends (ok false)
    send_listed_objects (o ∷ os) reads sends =
        let rest = send_listed_objects os (suc reads) (suc sends) in
        if env.is_cancelled reads
        then halted (suc reads) sends (ok true)
        else sent_one (send env sends) o (suc reads) (suc sends) rest

    module _ (api : ListApi) (config : Config x) (mode : ListingMode) where
      abbrev Rest : Type 0
      Rest = Cursor → ℕ → ℕ → Listing

      abbrev advance : Rest → ℕ → ℕ → Result Cursor Error → Listing
      advance rest reads sends (ok cursor) = rest cursor reads sends
      advance rest reads sends (err e) = finished (err e)

      abbrev after_page : Rest → Cursor → ListPage → Batch → Result Bool Error → Listing
      after_page rest cursor page b (err e) = finished (err e)
      after_page rest cursor page b (ok true) = finished (ok tt)
      after_page rest cursor page b (ok false) =
          if page.is_truncated
          then advance rest b.reads b.sends
              (next_cursor api config mode config.target.prefix cursor page)
          else finished (ok tt)

      abbrev pub behind : List (S3Object x.DateTime) → Listing → Listing
      behind sent l = record l { sent = sent ++ l.sent }

      abbrev on_answer : Rest → Cursor → ℕ → ℕ → Result ListPage Error → Listing
      on_answer rest cursor reads sends (err e) = finished (err e)
      on_answer rest cursor reads sends (ok page) =
          let b = send_listed_objects page.objects reads sends in
          behind b.sent (after_page rest cursor page b b.stopped)

      -- `list_sequential`, with at most `fuel` requests, of which the first has the number n.
      unfoldable pub list_sequential : ℕ → ℕ → Cursor → ℕ → ℕ → Listing
      unfolding send_listed_objects fetch_list_page next_cursor
      list_sequential zero n cursor reads sends = record { sent = []; outcome = none }
      list_sequential (suc fuel) n cursor reads sends =
          let listing =
            on_answer (λ cursor reads sends. list_sequential fuel (suc n) cursor reads sends) cursor
              (suc reads) sends
              (fetch_list_page api config mode n config.target.prefix none cursor) in
          if env.is_cancelled reads then finished (ok tt) else listing
