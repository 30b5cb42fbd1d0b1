-- ===== src/Tests/Listings.antt =====
-- Runs of the listing.
use s3rm_rs.Base.{ℕ, ◌≡◌, refl, Option, none, some, List, [], ◌∷◌, Result, ok, true, arith, String}
use s3rm_rs.Base.Int.{pos}
use s3rm_rs.Types.Object.{S3Object, not_versioning, Object}
use s3rm_rs.Types.Error.{SdkError}
use s3rm_rs.Storage.Listing.{ListApi, ListObjectsV2Output, list_sequential, start, objects}
use s3rm_rs.Storage.Listing.Contract.{Pages, last, more, first, token, objects_end, objects_on}
use s3rm_rs.Storage.Listing.Laws.{list_sequential_complete}
use s3rm_rs.Tests.{sdk, calm, config}

abbrev pub entry : String → Object ℕ
entry key = record { key = key; size = pos 1; last_modified = 0; e_tag = none }

abbrev answer : Option String → Result (ListObjectsV2Output sdk) SdkError
answer none = ok (record {
  contents = entry "a" ∷ [];
  common_prefixes = [];
  is_truncated = some true;
  next_continuation_token = some "t";
})
answer (some t) = ok (record {
  contents = entry "b" ∷ [];
  common_prefixes = [];
  is_truncated = none;
  next_continuation_token = none;
})

abbrev two_pages : ListApi sdk
two_pages = record {
  list_objects_v2 = λ n prefix delimiter token. answer token;
  list_object_versions = λ n prefix delimiter key_marker version_id_marker. ok (record {
    versions = [];
    delete_markers = [];
    common_prefixes = [];
    is_truncated = none;
    next_key_marker = none;
    next_version_id_marker = none;
  });
}

abbrev both : List (S3Object ℕ)
both = not_versioning (entry "a") ∷ not_versioning (entry "b") ∷ []

two_pages-Pages : Pages sdk two_pages config.target.prefix none objects 2 0 first both []
two_pages-Pages =
    more 1 0 first (token "t") _ _ [] [] (objects_on 0 first _ [] "t" refl refl refl refl refl)
      (last 1 (token "t") _ [] (objects_end 1 (token "t") _ [] refl tt refl))

list_sequential_complete_example :
    ((list_sequential sdk calm two_pages config objects 2 0 (start sdk) 0 0).sent ≡ both)
    × ((list_sequential sdk calm two_pages config objects 2 0 (start sdk) 0 0).outcome
        ≡ some (ok tt))
list_sequential_complete_example =
    list_sequential_complete sdk two_pages config objects calm
      (record { live = λ n. refl; accepting = λ n. refl }) 2 both [] two_pages-Pages 2 (omega arith)
