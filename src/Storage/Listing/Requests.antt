-- ===== src/Storage/Listing/Requests.antt =====
-- `fetch_list_page` and `next_cursor` of src/storage/s3/mod.rs make the requests of S3's contract, and
-- keep what the answers give.
use s3rm_rs.Base.{
  ℕ, ◌≡◌, refl, ap, Bool, true, false, Option, none, some, String, List, [], ◌∷◌, map, ok,
  unwrap_or,
}
use s3rm_rs.Types.Sdk.{Sdk}
use s3rm_rs.Config.{Config}
use s3rm_rs.Storage.Listing.{
  ListingMode, objects, versions, ListApi, ListPage, Cursor, fetch_list_page, next_cursor,
  page_of_objects, page_of_versions, sub_prefixes_of,
}
use s3rm_rs.Storage.Listing.Contract.{
  Position, first, token, marker, token_of, key_of, version_of, IsWhole, Objects, Gives,
  objects_end, objects_on, versions_end, versions_on,
}

-- A position of a listing of this mode.
abbrev pub IsOf : ListingMode → Position → Type 0
IsOf mode first = Unit
IsOf objects (token t) = Unit
IsOf objects (marker k v) = ⊥
IsOf versions (token t) = ⊥
IsOf versions (marker k v) = Unit

IsWhole-false : (o : Option Bool) → IsWhole o → unwrap_or o false ≡ false
IsWhole-false none h = refl
IsWhole-false (some false) h = refl
IsWhole-false (some true) h = absurd h

module _ (x : Sdk) where
  -- The variables of the loop at a position.
  abbrev pub cursor_at : Position → Cursor x
  cursor_at from = record {
    continuation_token = token_of from;
    key_marker = key_of from;
    version_id_marker = version_of from;
  }

  sub_prefixes_of-map : (prefixes : List String) → sub_prefixes_of x (map some prefixes) ≡ prefixes
  unfolding sub_prefixes_of
  sub_prefixes_of-map [] = refl
  sub_prefixes_of-map (p ∷ prefixes) = ap (◌∷◌ p) (sub_prefixes_of-map prefixes)

  module _ (api : ListApi x) (config : Config x) (prefix : String) (delimiter : Option String) where
    -- Where the loop goes on behind a page.
    abbrev pub Turns : ListingMode → Position → ListPage x → Option Position → Type 0
    Turns mode from page none = page.is_truncated ≡ false
    Turns mode from page (some next) =
        (page.is_truncated ≡ true)
        × (next_cursor x api config mode prefix (cursor_at from) page ≡ ok (cursor_at next))
        × IsOf mode next

    pub Gives-fetch_list_page :
        (mode : ListingMode) (n : ℕ) (from : Position) (found : Objects x) (prefixes : List String)
        (next : Option Position)
        → IsOf mode from
        → Gives x api prefix delimiter mode n from found prefixes next
        → (page : ListPage x) × (fetch_list_page x api config mode n prefix delimiter
              (cursor_at from)
            ≡ ok page)
          × (page.objects ≡ found)
          × (page.sub_prefixes ≡ prefixes)
          × Turns mode from page next
    unfolding fetch_list_page next_cursor page_of_objects page_of_versions
    Gives-fetch_list_page mode n from found prefixes next at
          (objects_end n' from' out prefixes' answer whole common) =
        (
          page_of_objects x out,
          rw answer refl,
          refl,
          rw common (sub_prefixes_of-map prefixes),
          IsWhole-false out.is_truncated whole,
        )
    Gives-fetch_list_page mode n first found prefixes next at
          (objects_on n' from' out prefixes' t answer cut common follows new) =
        (
          page_of_objects x out,
          rw answer refl,
          refl,
          rw common (sub_prefixes_of-map prefixes),
          (rw cut refl, rw follows refl, tt),
        )
    Gives-fetch_list_page mode n (token t') found prefixes next at
          (objects_on n' from' out prefixes' t answer cut common follows new) =
        (
          page_of_objects x out,
          rw answer refl,
          refl,
          rw common (sub_prefixes_of-map prefixes),
          (rw cut refl, rw (follows, new) refl, tt),
        )
    Gives-fetch_list_page mode n (marker k' v') found prefixes next at
          (objects_on n' from' out prefixes' t answer cut common follows new) =
        absurd at
    Gives-fetch_list_page mode n from found prefixes next at
          (versions_end n' from' out prefixes' answer whole common) =
        (
          page_of_versions x out,
          rw answer refl,
          refl,
          rw common (sub_prefixes_of-map prefixes),
          IsWhole-false out.is_truncated whole,
        )
    Gives-fetch_list_page mode n first found prefixes next at
          (versions_on n' from' out prefixes' k v answer cut common key version new) =
        (
          page_of_versions x out,
          rw answer refl,
          refl,
          rw common (sub_prefixes_of-map prefixes),
          (rw cut refl, rw (key, version) refl, tt),
        )
    Gives-fetch_list_page mode n (token t) found prefixes next at
          (versions_on n' from' out prefixes' k v answer cut common key version new) =
        absurd at
    Gives-fetch_list_page mode n (marker k' v') found prefixes next at
          (versions_on n' from' out prefixes' k v answer cut common key version new) =
        (
          page_of_versions x out,
          rw answer refl,
          refl,
          rw common (sub_prefixes_of-map prefixes),
          (rw cut refl, rw (key, version, new) refl, tt),
        )
