-- ===== src/Storage/Listing/Contract.antt =====
-- What S3 promises of its two list calls, in terms of the calls alone: the positions that a listing
-- goes on from, the pages of a listing, and what the listings of a bucket add up to.
use mathlib.Core.List.{flatten, Perm}
use s3rm_rs.Base.{
  ℕ, suc, ◌≤◌, ◌≡◌, Bool, true, false, Option, none, some, String, List, [], ◌++◌, map, ok,
  opt_str_eq, ◌&&◌, All, arith,
}
use s3rm_rs.Types.Object.{S3Object, not_versioning, versioning, delete_marker}
use s3rm_rs.Types.Target.{is_empty}
use s3rm_rs.Types.Sdk.{Sdk}
use s3rm_rs.Storage.Listing.{
  ListingMode, objects, versions, ListApi, ListObjectsV2Output, ListObjectVersionsOutput,
}

-- Where a listing goes on: at its first entry, behind a continuation token, or behind a key with the
-- version that follows the last one listed, if the versions of the key were cut.
pub data Position : Type 0 where
  first : Position
  token : String → Position
  marker : String → Option String → Position

abbrev pub token_of : Position → Option String
token_of first = none
token_of (token t) = some t
token_of (marker k v) = none

abbrev pub key_of : Position → Option String
key_of first = none
key_of (token t) = none
key_of (marker k v) = some k

abbrev pub version_of : Position → Option String
version_of first = none
version_of (token t) = none
version_of (marker k v) = v

-- `IsTruncated`, which may be left out at the end.
abbrev pub IsWhole : Option Bool → Type 0
IsWhole none = Unit
IsWhole (some false) = Unit
IsWhole (some true) = ⊥

module _ (x : Sdk) where
  abbrev pub Objects : Type 0
  Objects = List (S3Object x.DateTime)

  module _ (api : ListApi x) (prefix : String) (delimiter : Option String) where
    -- The answer to the request with a number for the page at a position: its objects, its common
    -- prefixes, and the position of the next page. A listing of versions gives delete markers too.
    pub data Gives
        : ListingMode → ℕ → Position → Objects → List String → Option Position → Type 0 where
      objects_end :
          (n : ℕ) (from : Position) (out : ListObjectsV2Output x) (prefixes : List String)
          → api.list_objects_v2 n prefix delimiter (token_of from) ≡ ok out
          → IsWhole out.is_truncated
          → out.common_prefixes ≡ map some prefixes
          → Gives objects n from (map not_versioning out.contents) prefixes none
      objects_on :
          (n : ℕ) (from : Position) (out : ListObjectsV2Output x) (prefixes : List String)
          (t : String)
          → api.list_objects_v2 n prefix delimiter (token_of from) ≡ ok out
          → out.is_truncated ≡ some true
          → out.common_prefixes ≡ map some prefixes
          → out.next_continuation_token ≡ some t
          → opt_str_eq (some t) (token_of from) ≡ false
          → Gives objects n from (map not_versioning out.contents) prefixes (some (token t))
      versions_end :
          (n : ℕ) (from : Position) (out : ListObjectVersionsOutput x) (prefixes : List String)
          → api.list_object_versions n prefix delimiter (key_of from) (version_of from) ≡ ok out
          → IsWhole out.is_truncated
          → out.common_prefixes ≡ map some prefixes
          → Gives versions n from
              (map versioning out.versions ++ map delete_marker out.delete_markers)
              prefixes
              none
      versions_on :
          (n : ℕ) (from : Position) (out : ListObjectVersionsOutput x) (prefixes : List String)
          (k : String) (v : Option String)
          → api.list_object_versions n prefix delimiter (key_of from) (version_of from) ≡ ok out
          → out.is_truncated ≡ some true
          → out.common_prefixes ≡ map some prefixes
          → out.next_key_marker ≡ some k
          → out.next_version_id_marker ≡ v
          → (opt_str_eq (some k) (key_of from) && opt_str_eq v (version_of from)) ≡ false
          → Gives versions n from
              (map versioning out.versions ++ map delete_marker out.delete_markers)
              prefixes
              (some (marker k v))

    -- The pages of a listing from a request and a position on: how many there are, and the objects
    -- and the common prefixes of all of them.
    pub data Pages (mode : ListingMode) : ℕ → ℕ → Position → Objects → List String → Type 0 where
      last :
          (n : ℕ) (from : Position) (found : Objects) (prefixes : List String)
          → Gives mode n from found prefixes none
          → Pages mode 1 n from found prefixes
      more :
          (k n : ℕ) (from next : Position) (found rest : Objects) (prefixes later : List String)
          → Gives mode n from found prefixes (some next)
          → Pages mode k (suc n) next rest later
          → Pages mode (suc k) n from (found ++ rest) (prefixes ++ later)

  pub Pages-positive :
      (api : ListApi x) (prefix : String) (delimiter : Option String) (mode : ListingMode) (k n : ℕ)
      (from : Position) (found : Objects) (prefixes : List String)
      → Pages api prefix delimiter mode k n from found prefixes
      → 1 ≤ k
  Pages-positive api p d mode k n from found prefixes (last n' from' found' prefixes' gives) =
      omega arith
  Pages-positive api p d mode k n from found prefixes
        (more k' n' from' next found' rest prefixes' later gives pages) =
      omega arith

  -- A bucket has certain objects below each prefix. A listing without a delimiter gives them, in at
  -- most k pages. One with the delimiter "/" gives some of them and common prefixes, which are not
  -- empty, and below which the others are.
  pub record Serves (api : ListApi x) (mode : ListingMode) (k : ℕ) (below : String → Objects)
      : Type 0 where
    pub flat :
        (prefix : String)
        → (m : ℕ) × (m ≤ k)
          × ((found : Objects) × Pages api prefix none mode m 0 first found []
              × Perm found (below prefix))
    pub grouped :
        (prefix : String)
        → (m : ℕ) × (m ≤ k)
          × ((found : Objects) × (prefixes : List String) × Pages api prefix
                (some "/")
                mode
                m
                0
                first
                found
                prefixes
              × All (λ p. is_empty p ≡ false) prefixes
              × Perm (found ++ flatten (map below prefixes)) (below prefix))
